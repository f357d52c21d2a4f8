-- ===== src/Minio/Deploying/Waiting.antt =====
-- The loop that waits for the deployment of Minio.
use knuu.Prelude.{
  ℕ, zero, suc, ◌<◌, ◌≡◌, ◌≢◌, refl, ap, ◌∙◌, true, false, Option, none, some, arith, inl, inr,
  Bool-cases, Option-cases,
}
use knuu.Errors.{ok, foreign, not_found}
use knuu.Action.{pure, when}
use knuu.Action.Stops.{bind_of_ok}
use knuu.Host.{Foreign, Os, Call}
use knuu.K8s.Objects.{Deployment}
use knuu.K8s.Cluster.{Client}
use knuu.K8s.Cluster.Outcomes.{on_error_of_ok, on_error_of_err}
use knuu.K8s.Cluster.Store.{got}
use knuu.Minio.Deploying.{deployment_name, deployments, is_ready, pause, wait_for_minio}

module _ ⦃f : Foreign⦄ ⦃o : Os⦄ (remaining : f.Outside → ℕ) (c : Client) where
  module _ (status : f.Outside → Option Deployment)
      (queried : (x : f.Outside) → (deployments c).get deployment_name x ≡ got x (status x))
      (ready_in_time : (x : f.Outside)
        → remaining x ≡ 0
        → (d : Deployment) × ((status x ≡ some d) × (is_ready d ≡ true)))
      (waits : (x : f.Outside)
        → 0 < remaining x
        → (y : f.Outside) × ((o.select_done x ≡ (y, ok false)) × (remaining y < remaining x))) where
    paused_lem :
        (m : Call (Option (Unit {0}))) (x : f.Outside)
        → 0 < remaining x
        → ((y : f.Outside) → remaining y < remaining x → (m y).1 ≡ ok (some tt))
        → (pause m x).1 ≡ ok (some tt)
    unfolding when
    paused_lem m x h rest =
        let (y, (e, l)) = waits x h in
        ap (λ p. p.1) (bind_of_ok o.select_done _ x y false e) ∙ rest y l

    late_of_none : (x : f.Outside) → status x ≡ none → 0 < remaining x
    late_of_none x e =
        let busy : remaining x ≢ 0 = λ z. let (d, (k, r)) = ready_in_time x z in cc in
        omega (arith, busy)

    late_of_unready :
        (x : f.Outside) (d : Deployment) → status x ≡ some d → is_ready d ≡ false → 0 < remaining x
    late_of_unready x d e r =
        let busy : remaining x ≢ 0 = λ z. let (d', (k, r')) = ready_in_time x z in cc in
        omega (arith, busy)

    answered_lem :
        (m : Call (Option (Unit {0}))) (d : Deployment) (x : f.Outside)
        → status x ≡ some d
        → (0 < remaining x → (m x).1 ≡ ok (some tt))
        → (when (is_ready d) (pure (some tt)) m x).1 ≡ ok (some tt)
    unfolding when pure
    answered_lem m d x e again = elim (Bool-cases (is_ready d)) [
      | inl r ↦ rw r refl
      | inr r ↦ rw r (again (late_of_unready x d e r))
    ]

    -- Where a query of the deployment changes nothing, a measure of the outside is zero only when the
    -- deployment is ready, and each wait before that falls short of the end of the context and lowers
    -- the measure, the loop returns without an error, within more rounds than the measure.
    pub wait_for_minio-returns :
        (rounds : ℕ) (x : f.Outside)
        → remaining x < rounds
        → (wait_for_minio rounds c x).1 ≡ ok (some tt)
    unfolding wait_for_minio when pure
    wait_for_minio-returns zero x h = absurd (omega (arith, h))
    wait_for_minio-returns (suc rounds) x h =
        let again : 0 < remaining x → (pause (wait_for_minio rounds c) x).1 ≡ ok (some tt) = λ p.
          paused_lem (wait_for_minio rounds c) x p
            (λ y l. wait_for_minio-returns rounds y (omega (arith, l, h))) in
        elim (Option-cases (status x)) [
          | inl e ↦
              ap (λ p. p.1)
                (on_error_of_err _ _ _ x x (foreign not_found) (queried x ∙ ap (got x) e))
              ∙ again (late_of_none x e)
          | inr (d, e) ↦
              ap (λ p. p.1) (on_error_of_ok _ _ _ x x d (queried x ∙ ap (got x) e))
              ∙ answered_lem (pause (wait_for_minio rounds c)) d x e again
        ]
