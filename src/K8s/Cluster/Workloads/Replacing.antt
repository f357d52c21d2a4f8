-- ===== src/K8s/Cluster/Workloads/Replacing.antt =====
-- What ReplacePod leaves, on a server without faults that deletes pods gracefully.
use knuu.Prelude.{
  ℕ, zero, suc, ◌<◌, ◌⊎◌, arith, ◌≡◌, refl, sym, ap, ◌∙◌, true, false, if◌then◌else◌, Option, none,
  some, Option-cases, inl, inr,
}
use knuu.Prelude.Text.{Text, text_eq, text_eq_iff}
use knuu.Errors.{k8s_code, ok, foreign, not_found}
use knuu.Errors.Codes.{
  client_terminated, deleting_pod, waiting_for_pod_deletion, deploying_pod, creating_pod,
  deleting_pod_failed,
}
use knuu.Action.{pure, when}
use knuu.Action.Stops.{bind_of_ok, wrapping_of_ok}
use knuu.Host.{Foreign, Os}
use knuu.K8s.Types.{PodConfig}
use knuu.K8s.Objects.{PodObject}
use knuu.K8s.Pods.{prepare_pod}
use knuu.K8s.Validate.{Validation, fails_if, validate_pod_config}
use knuu.K8s.Cluster.{Client}
use knuu.K8s.Cluster.Outcomes.{on_error_of_err, on_error_of_ok, passed}
use knuu.K8s.Cluster.Store.{IsServer, IsGraceful, got, created, deleted}
use knuu.K8s.Cluster.Workloads.{
  pods, get_pod, delete_pod_with_grace_period, pod_is_gone, wait_for_pod_deletion, deploy_pod,
  deploy_after, replace_pod_with_grace_period, replace_pod,
}

module _ ⦃f : Foreign⦄ ⦃v : Validation⦄ ⦃o : Os⦄ (c : Client) (alive : c.terminated ≡ false)
    (st : IsServer (pods c) (λ pod. pod.meta.name)) (gr : IsGraceful (pods c) st.view)
    (config : PodConfig) (left : f.Outside → ℕ) where
  abbrev prepared : PodObject
  prepared = prepare_pod config false

  -- There is no pod of the name, or it is being deleted.
  abbrev pub IsLeaving : f.Outside → Type 0
  IsLeaving x = (st.view x config.name ≡ none) ⊎ (gr.is_deleting x config.name ≡ true)

  -- While there is none of the name, or it is being deleted, a wait does not find the context done;
  -- after it there is none, or it is still being deleted with fewer waits left.
  abbrev pub Outlasts : Type 0
  Outlasts =
      (x : f.Outside)
      → IsLeaving x
      → (y : f.Outside) × ((o.select_done x ≡ (y, ok false))
          × ((st.view y config.name ≡ none)
              ⊎ ((gr.is_deleting y config.name ≡ true) × (left y < left x))))

  not_terminated : fails_if c.terminated client_terminated ≡ none
  not_terminated = rw alive refl

  got_pod : (name : Text) (x : f.Outside) → get_pod c name x ≡ got x (st.view x name)
  unfolding get_pod
  got_pod name x = passed _ x _ not_terminated ∙ st.get_lem name x

  -- The outside once no pod has the name, or it is being deleted.
  abbrev pub cleared : f.Outside → Option PodObject → f.Outside
  cleared x none = x
  cleared x (some pod) = gr.marked config.name x

  delete_lem :
      (x : f.Outside)
      → delete_pod_with_grace_period c config.name none x
        ≡ (cleared x (st.view x config.name), ok tt)
  unfolding delete_pod_with_grace_period pure
  delete_lem x = elim (Option-cases (st.view x config.name)) [
    | inl e ↦
        on_error_of_err (get_pod c config.name) _ _ x x (foreign not_found)
          (got_pod config.name x ∙ ap (got x) e)
        ∙ ap (λ p. (cleared x p, ok tt)) (sym e)
    | inr (pod, e) ↦
        on_error_of_ok (get_pod c config.name) _ _ x x pod (got_pod config.name x ∙ ap (got x) e)
        ∙ (wrapping_of_ok (k8s_code deleting_pod_failed) _ x (gr.marked config.name x) tt
              (gr.delete_lem config.name none x ∙ ap (deleted x (gr.marked config.name x)) e)
            ∙ ap (λ p. (cleared x p, ok tt)) (sym e))
  ]

  cleared-IsLeaving :
      (x : f.Outside) (p : Option PodObject) → st.view x config.name ≡ p → IsLeaving (cleared x p)
  cleared-IsLeaving x none h = inl h
  cleared-IsLeaving x (some pod) h = gr.marked_lem config.name x

  gone_lem :
      (y : f.Outside) → st.view y config.name ≡ none → pod_is_gone c config.name y ≡ (y, ok true)
  unfolding pod_is_gone pure
  gone_lem y h =
      on_error_of_err (get_pod c config.name) _ _ y y (foreign not_found)
        (got_pod config.name y ∙ ap (got y) h)

  there_lem :
      (y : f.Outside) (pod : PodObject)
      → st.view y config.name ≡ some pod
      → pod_is_gone c config.name y ≡ (y, ok false)
  unfolding pod_is_gone pure
  there_lem y pod h =
      on_error_of_ok (get_pod c config.name) _ _ y y pod (got_pod config.name y ∙ ap (got y) h)

  -- The waits of the loop go on until no pod has the name.
  abbrev WaitsFrom : ℕ → f.Outside → Type 0
  WaitsFrom rounds x =
      (y : f.Outside) × ((wait_for_pod_deletion rounds c config.name x ≡ (y, ok (some tt)))
        × (st.view y config.name ≡ none))

  last_wait :
      (rounds : ℕ) (x y : f.Outside)
      → o.select_done x ≡ (y, ok false)
      → st.view y config.name ≡ none
      → WaitsFrom (suc rounds) x
  unfolding wait_for_pod_deletion when pure
  last_wait rounds x y d h = (
    y,
    (
      bind_of_ok o.select_done _ x y false d
          ∙ bind_of_ok (pod_is_gone c config.name) _ y y true (gone_lem y h),
      h,
    ),
  )

  more_waits :
      (rounds : ℕ) (x y : f.Outside) (pod : PodObject)
      → o.select_done x ≡ (y, ok false)
      → st.view y config.name ≡ some pod
      → WaitsFrom rounds y
      → WaitsFrom (suc rounds) x
  unfolding wait_for_pod_deletion when pure
  more_waits rounds x y pod d h (z, (e, n)) = (
    z,
    (
      bind_of_ok o.select_done _ x y false d
          ∙ (bind_of_ok (pod_is_gone c config.name) _ y y false (there_lem y pod h) ∙ e),
      n,
    ),
  )

  waited :
      Outlasts → (rounds : ℕ) (x : f.Outside) → IsLeaving x → left x < rounds → WaitsFrom rounds x
  waited outlasts zero x h l = absurd (omega (arith, l))
  waited outlasts (suc rounds) x h l =
      let (y, (d, next)) = outlasts x h in
      elim next [
        | inl n ↦ last_wait rounds x y d n
        | inr (m, fewer) ↦ elim (Option-cases (st.view y config.name)) [
          | inl n ↦ last_wait rounds x y d n
          | inr (pod, e) ↦
              more_waits rounds x y pod d e
                (waited outlasts rounds y (inr m) (omega (arith, l, fewer)))
        ]
      ]

  named : (z : f.Outside) → st.view z prepared.meta.name ≡ st.view z config.name
  unfolding prepare_pod
  named z = refl

  deployed :
      (y : f.Outside)
      → validate_pod_config config ≡ none
      → st.view y config.name ≡ none
      → deploy_pod c config false y ≡ (st.put prepared y, ok (st.admitted prepared y))
  unfolding deploy_pod
  deployed y valid h =
      let z = st.put prepared y in
      let pod = st.admitted prepared y in
      passed _ y _ not_terminated
      ∙ (passed _ y _ valid
          ∙ wrapping_of_ok (k8s_code creating_pod) _ y z pod
              (st.create_lem prepared y ∙ ap (created y z pod) (named y ∙ h)))

  same_name : text_eq prepared.meta.name config.name ≡ true
  unfolding prepare_pod
  same_name = (text_eq_iff config.name config.name).1 refl

  replaced :
      (rounds : ℕ) (x y : f.Outside)
      → validate_pod_config config ≡ none
      → wait_for_pod_deletion rounds c config.name (cleared x (st.view x config.name))
        ≡ (y, ok (some tt))
      → st.view y config.name ≡ none
      → replace_pod rounds c config x ≡ (st.put prepared y, ok (some (st.admitted prepared y)))
  unfolding replace_pod replace_pod_with_grace_period deploy_after pure
  replaced rounds x y valid d absent =
      let before = cleared x (st.view x config.name) in
      let pod = st.admitted prepared y in
      bind_of_ok _ _ x before tt
        (wrapping_of_ok (k8s_code deleting_pod) _ x before tt (delete_lem x))
      ∙ (bind_of_ok _ _ before y (some tt)
            (wrapping_of_ok (k8s_code waiting_for_pod_deletion) _ before y (some tt) d)
          ∙ bind_of_ok _ _ y (st.put prepared y) pod (
              wrapping_of_ok (k8s_code deploying_pod) _ y (st.put prepared y) pod
                (deployed y valid absent)))

  -- ReplacePod, for a valid configuration, on a server without faults that may keep a pod for a while
  -- after Delete, where the context outlasts this: within more rounds than there are waits left until
  -- the old pod is gone, it returns what the server makes of the pod of the configuration, and the
  -- server has that pod under its name, whether there was one before or not.
  pub replace_pod-replaces :
      (rounds : ℕ) (x : f.Outside)
      → validate_pod_config config ≡ none
      → Outlasts
      → left (cleared x (st.view x config.name)) < rounds
      → (y : f.Outside) × (((replace_pod rounds c config x).1 ≡ ok (some (st.admitted prepared y)))
          × (st.view (replace_pod rounds c config x).0 config.name ≡ some (st.admitted prepared y)))
  replace_pod-replaces rounds x valid outlasts l =
      let leaving = cleared-IsLeaving x (st.view x config.name) refl in
      let (y, (d, absent)) = waited outlasts rounds (cleared x (st.view x config.name)) leaving l in
      let e = replaced rounds x y valid d absent in
      let pod = st.admitted prepared y in
      (
        y,
        (
          ap (λ p. p.1) e,
          ap (λ p. st.view p.0 config.name) e
              ∙ (st.view_put prepared y config.name
                  ∙ ap (λ b. if b then some pod else st.view y config.name) same_name),
        ),
      )
