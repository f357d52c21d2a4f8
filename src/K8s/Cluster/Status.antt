-- ===== src/K8s/Cluster/Status.antt =====
-- pod_status.go of pkg/k8s: the status of the pods, and what the monitor logs of those that have been
-- pending for too long.
pub mod Counts
use knuu.Prelude.{
  ℕ, ◌+◌, Bool, ◌&&◌, if◌then◌else◌, Option, none, some, List, [], ◌∷◌, ◌++◌, map, lookup, insert,
}
use knuu.Prelude.Text.{Text, codes, text_eq, decimal, text_has_eq}
use knuu.Prelude.Int.{ℤ, pos, ltb_ℤ}
use knuu.Prelude.Strings.{trim_suffix, concat}
use knuu.Errors.{k8s_code}
use knuu.Errors.Codes.{listing_pods, get_pod_status}
use knuu.Action.{pure, wrapping, ◌>>=◌}
use knuu.Host.{Foreign, Call}
use knuu.K8s.Objects.{PodObject}
use knuu.K8s.Cluster.{Client}

pub record PodStatus : Type 0 where
  pub name : Text
  pub status : Text
  pub pending_duration : ℤ

abbrev pub pending : Text
pending = codes "Pending"

-- summary[s.Status]++ for each status.
abbrev pub count_of : Option ℕ → ℕ
count_of none = 0
count_of (some n) = n

unfoldable pub count_statuses : List (Text × ℕ) → List PodStatus → List (Text × ℕ)
count_statuses summary [] = summary
count_statuses summary (s ∷ ss) =
    count_statuses (insert s.status (count_of (lookup s.status summary) + 1) summary) ss

-- Go walks the map in any order; here it keeps the order of the first of each status.
unfoldable pub generate_pods_status_summary : List PodStatus → Text
unfolding count_statuses
generate_pods_status_summary statuses = trim_suffix (codes ", ") (
    concat (
      map (λ (status, count). status ++ (codes ": " ++ (decimal count ++ codes " , ")))
        (count_statuses [] statuses)))

-- time.Since of a time, none for the zero value.
module _ ⦃f : Foreign⦄ where
  pub record Clock : Type 0 where
    pub since : Option ℤ → Call ℤ

module _ ⦃f : Foreign⦄ ⦃t : Clock⦄ where
  abbrev pub pending_duration_of : PodObject → Call ℤ
  pending_duration_of pod = if text_eq pod.phase pending then t.since pod.created else pure (pos 0)

  abbrev pub status_of : PodObject → Call PodStatus
  status_of pod = do
    duration ← pending_duration_of pod
    pure (record { name = pod.meta.name; status = pod.phase; pending_duration = duration })

  unfoldable pub statuses_of : List PodObject → Call (List PodStatus)
  statuses_of [] = pure []
  statuses_of (pod ∷ pods) = do
    status ← status_of pod
    statuses ← statuses_of pods
    pure (status ∷ statuses)

  unfoldable pub all_pods_statuses : Client → Call (List PodStatus)
  unfolding statuses_of
  all_pods_statuses c = do
    pods ← wrapping (k8s_code listing_pods) (c.clientset.list_pods c.namespace [])
    statuses_of pods

  abbrev pub pod_status : Client → Text → Call PodStatus
  pod_status c name = do
    pod ← wrapping (k8s_code get_pod_status) ((c.clientset.pods c.namespace).get name)
    status_of pod

  abbrev pub is_long_pending : ℤ → PodStatus → Bool
  is_long_pending limit s = text_eq s.status pending && ltb_ℤ limit s.pending_duration

  abbrev pub long_pending : ℤ → List PodStatus → List Text
  long_pending limit [] = []
  long_pending limit (s ∷ ss) =
      let rest = long_pending limit ss in if is_long_pending limit s then s.name ∷ rest else rest

  -- What the monitor logs at a tick: the names, and the summary of all; nothing where no name is left.
  abbrev pub warning_of : ℤ → List PodStatus → Option (List Text × Text)
  warning_of limit statuses = elim (long_pending limit statuses) [
    | [] ↦ none
    | name ∷ names ↦ some (name ∷ names, generate_pods_status_summary statuses)
  ]

  abbrev pub report_long_pending_pods : Client → Call (Option (List Text × Text))
  unfolding all_pods_statuses
  report_long_pending_pods c = do
    statuses ← all_pods_statuses c
    pure (warning_of c.max_pending_duration statuses)
