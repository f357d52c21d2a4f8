-- ===== src/Examples/Leaving.antt =====
-- The theorem on ReplacePod on a server that keeps a pod for a while after Delete.
use knuu.Prelude.{
  ℕ, zero, suc, ◌<◌, ◌⊎◌, ◌≡◌, refl, ap, ◌∙◌, Bool, true, false, if◌then◌else◌, inl, inr, Option,
  none, some, List, [], ◌∷◌, map, arith,
}
use knuu.Prelude.Text.{Text, codes, text_eq, text_eq_iff}
use knuu.Errors.{ok}
use knuu.Host.{Os}
use knuu.K8s.Objects.{PodObject}
use knuu.K8s.Pods.{prepare_pod}
use knuu.K8s.Cluster.{Api, Client}
use knuu.K8s.Cluster.Store.{IsServer, IsGraceful, deleted}
use knuu.K8s.Cluster.Workloads.{replace_pod}
use knuu.K8s.Cluster.Workloads.Replacing.{replace_pod-replaces}
use knuu.Examples.Server.{
  Contents, held, machine, validation, pod_api, pod_kept, pod_shown, pods_shown_kept, find, except,
  find-except, server, client, nothing,
}
use knuu.Examples.Cluster.{pod}

abbrev name_of : PodObject → Text
name_of p = p.meta.name

abbrev shown_pods : Contents → List PodObject
shown_pods x = map pod_shown x.pods

abbrev pod_of : Contents → Text → Option PodObject
pod_of x n = find name_of (shown_pods x) n

abbrev marked : Text → Contents → Contents
marked n x = record x { leaving = some n; grace = 2 }

abbrev is_named : Option Text → Text → Bool
is_named none n = false
is_named (some m) n = text_eq m n

-- A wait, with the pod that is being deleted and the waits that it has left.
abbrev waited : Option Text → ℕ → Contents → Contents
waited none g x = x
waited (some m) zero x = record x {
  pods = map pod_kept (except name_of m (shown_pods x));
  leaving = none;
}
waited (some m) (suc g) x = record x { grace = g }

abbrev patient : Os
patient = record machine { select_done = λ x. (waited x.leaving x.grace x, ok false) }

abbrev patient_api : Api PodObject
patient_api = record pod_api { delete = λ n seconds x. deleted x (marked n x) (pod_of x n) }

abbrev patient_client : Client
patient_client = record client { clientset = record server { pods = λ namespace. patient_api } }

abbrev pods_server : IsServer patient_api name_of
pods_server = record {
  view = pod_of;
  put = λ a x. record x { pods = map pod_kept (a ∷ shown_pods x) };
  admitted = λ a x. a;
  view_put = λ a x n. ap (λ ps. find name_of ps n) (pods_shown_kept (a ∷ shown_pods x));
  get_lem = λ n x. refl;
  create_lem = λ a x. refl;
}

abbrev pods_graceful : IsGraceful patient_api pod_of
pods_graceful = record {
  is_deleting = λ x n. is_named x.leaving n;
  marked = marked;
  delete_lem = λ n seconds x. refl;
  marked_lem = λ n x. inr ((text_eq_iff n n).1 refl);
}

taken_away :
    (m : Text) (x : Contents) (n : Text)
    → (pod_of x n ≡ none) ⊎ (text_eq m n ≡ true)
    → pod_of (waited (some m) zero x) n ≡ none
taken_away m x n h =
    ap (λ ps. find name_of ps n) (pods_shown_kept (except name_of m (shown_pods x)))
    ∙ (find-except name_of m (shown_pods x) n ∙ gone (text_eq m n) (pod_of x n) h)
  where
    gone :
        (b : Bool) (p : Option PodObject) → (p ≡ none) ⊎ (b ≡ true) → (if b then none else p) ≡ none
    gone true p h = refl
    gone false p (inl e) = e
    gone false p (inr e) = cc

outlasts :
    (l : Option Text) (g : ℕ) (x : Contents) (n : Text)
    → x.leaving ≡ l
    → x.grace ≡ g
    → (pod_of x n ≡ none) ⊎ (is_named l n ≡ true)
    → (pod_of (waited l g x) n ≡ none)
      ⊎ ((is_named (waited l g x).leaving n ≡ true) × ((waited l g x).grace < x.grace))
outlasts none g x n e k (inl h) = inl h
outlasts none g x n e k (inr h) = absurd cc
outlasts (some m) zero x n e k h = inl (taken_away m x n h)
outlasts (some m) (suc g) x n e k (inl h) = inl h
outlasts (some m) (suc g) x n e k (inr h) = inr (rw e h, omega (arith, k))

-- A pod of the name is there.
abbrev occupied : Contents
occupied = record nothing { pods = pod_kept (prepare_pod pod true) ∷ [] }

replace_pod-replaces_example :
    (y : Contents) × (((replace_pod ⦃o = patient⦄ 4 patient_client pod occupied).1
        ≡ ok (some (pods_server.admitted (prepare_pod pod false) y)))
      × (pod_of (replace_pod ⦃o = patient⦄ 4 patient_client pod occupied).0 (codes "app")
          ≡ some (pods_server.admitted (prepare_pod pod false) y)))
unfolding prepare_pod
replace_pod-replaces_example =
    replace_pod-replaces ⦃o = patient⦄ patient_client refl pods_server pods_graceful pod
      (λ x. x.grace) 4 occupied refl
      (λ x h. (
        waited x.leaving x.grace x,
        (refl, outlasts x.leaving x.grace x (codes "app") refl refl h),
      ))
      (omega arith)
