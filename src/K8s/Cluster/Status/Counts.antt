-- ===== src/K8s/Cluster/Status/Counts.antt =====
-- What the summary of the statuses counts.
use knuu.Prelude.{
  ℕ, suc, ◌+◌, ◌≡◌, ap, ◌∙◌, inl, inr, if◌then◌else◌, some, List, [], ◌∷◌, lookup, insert,
  lookup_of_nil, lookup-insert, Bool-cases, arith,
}
use knuu.Prelude.Text.{Text, text_eq, text_eq_iff, text_has_eq}
use knuu.K8s.Cluster.Status.{PodStatus, count_of, count_statuses}

-- How many pods have the status.
abbrev pub occurrences : Text → List PodStatus → ℕ
occurrences k [] = 0
occurrences k (s ∷ ss) =
    let rest = occurrences k ss in if text_eq s.status k then suc rest else rest

counted :
    (k : Text) (summary : List (Text × ℕ)) (ss : List PodStatus)
    → count_of (lookup k (count_statuses summary ss))
      ≡ count_of (lookup k summary) + occurrences k ss
unfolding count_statuses
counted k summary [] = omega arith
counted k summary (s ∷ ss) =
    let next = insert s.status (count_of (lookup s.status summary) + 1) summary in
    let ih = counted k next ss in
    let found = lookup-insert s.status k (count_of (lookup s.status summary) + 1) summary in
    elim (Bool-cases (text_eq s.status k)) [
      | inl e ↦
          let here = ap count_of (
            found
            ∙ ap
                (λ b. if b then some (count_of (lookup s.status summary) + 1) else lookup k summary)
                e) in
          let same = ap (λ t. count_of (lookup t summary)) ((text_eq_iff s.status k).0 e) in
          rw e (omega (arith, ih, here, same))
      | inr e ↦
          let here = ap count_of (
            found
            ∙ ap
                (λ b. if b then some (count_of (lookup s.status summary) + 1) else lookup k summary)
                e) in
          rw e (omega (arith, ih, here))
    ]

-- The summary has, for each status, the number of the pods that have it.
pub count_statuses-occurrences :
    (k : Text) (ss : List PodStatus) → count_of (lookup k (count_statuses [] ss)) ≡ occurrences k ss
count_statuses-occurrences k ss =
    let empty = ap count_of (lookup_of_nil k) in omega (arith, counted k [] ss, empty)
