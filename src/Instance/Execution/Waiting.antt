-- ===== src/Instance/Execution/Waiting.antt =====
-- The loop of WaitInstanceIsRunning ends: a context with a deadline bounds its rounds.
use knuu.Prelude.{ℕ, zero, suc, ◌≤◌, ◌<◌, ◌≡◌, ◌≢◌, Bool, false, none, some, arith, ap, ◌∙◌}
use knuu.Errors.{ok, instance_code}
use knuu.Errors.Codes.{checking_if_instance_running}
use knuu.Action.{throw, pure, wrapping}
use knuu.Action.Rounds.{bind_not_none, when_not_none}
use knuu.Action.Moves.{IsPreorder, Moves, moves_rules}
use knuu.Prelude.Text.{Text}
use knuu.Host.{Foreign, Os}
use knuu.K8s.Types.{KubeManager}
use knuu.Instance.World.{Ref, World, call}
use knuu.Instance.Access.{self, require_state}
use knuu.Instance.Execution.{timed_out, is_running, wait_running}

module _ ⦃f : Foreign⦄ ⦃k : KubeManager⦄ ⦃o : Os⦄ where
  module _ (remaining : f.Outside → ℕ) where
    abbrev NoLater : World → World → Type 0
    NoLater w w' = remaining w'.outside ≤ remaining w.outside

    NoLater-preorder : IsPreorder NoLater
    NoLater-preorder = record { same = λ s. omega arith; chain = λ r s. omega arith }

    is_running-NoLater :
        (i : Ref)
        → ((x : f.Outside) (name : Text)
            → remaining (k.is_replica_set_running name x).0 ≤ remaining x)
        → Moves NoLater (is_running i)
    unfolding is_running require_state self call
    is_running-NoLater i stays =
        let asks : (name : Text) → Moves NoLater (call (k.is_replica_set_running name)) =
          λ name. record { at = λ w. stays w.outside name } in
        search (moves_rules, NoLater-preorder, asks) depth 12

    module _ (i : Ref)
        (falls : (x : f.Outside)
          → (o.select_done x).1 ≡ ok false
          → remaining (o.select_done x).0 < remaining x)
        (stays : (x : f.Outside) (name : Text)
          → remaining (k.is_replica_set_running name x).0 ≤ remaining x) where
      some_tt : (w : World) → (pure {S = World} (some tt) w).1 ≢ ok none
      unfolding pure
      some_tt w e = cc

      failed : (w : World) → (timed_out w).1 ≢ ok none
      unfolding throw
      failed w e = cc

      sooner :
          {r n : ℕ} (w : World) (done : Bool)
          → (call o.select_done w).1 ≡ ok done
          → done ≡ false
          → remaining w.outside ≤ r
          → r < suc n
          → remaining (call o.select_done w).0.outside < n
      unfolding call
      sooner w done e e' h h' = omega (arith, falls w.outside (e ∙ ap ok e'), h, h')

      -- Where a measure of the outside falls at each wait that does not find the context done, and no
      -- check of the replica set raises it, more rounds than the measure are enough: the loop does
      -- not run out of them.
      pub wait_running-ends :
          (rounds : ℕ) (w : World)
          → remaining w.outside < rounds
          → (wait_running rounds i w).1 ≢ ok none
      unfolding wait_running wrapping is_running
      wait_running-ends zero w h = absurd (omega (arith, h))
      wait_running-ends (suc rounds) w h =
          let w' = (wrapping (instance_code checking_if_instance_running) (is_running i) w).0 in
          let later : remaining w'.outside ≤ remaining w.outside =
            (is_running-NoLater i stays).at w in
          bind_not_none _ (wrapping _ (is_running i)) w λ running e.
            when_not_none running _ _ w' (λ e'. some_tt w')
              λ e'. bind_not_none _ (call o.select_done) w' λ done d.
                when_not_none done _ _ (call o.select_done w').0
                  (λ d'. failed (call o.select_done w').0)
                  λ d'.
                    wait_running-ends rounds (call o.select_done w').0 (sooner w' done d d' later h)
