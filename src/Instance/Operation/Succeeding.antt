-- ===== src/Instance/Operation/Succeeding.antt =====
-- An operation that succeeds has set the state that it is for.
use knuu.Prelude.{◌≡◌, refl, true, inl, inr, Option, none, some, [], ◌∷◌, Bool-cases, ==_iff, ◌==◌}
use knuu.Prelude.Text.{Text}
use knuu.Errors.{ok}
use knuu.Errors.Codes.{destroying_not_allowed}
use knuu.Action.{when, modify, ◌>>=◌, ◌>>◌}
use knuu.Action.Outcomes.{Ensures, Ensures-on_ok, OnOk-of, outcome_rules}
use knuu.Host.{Foreign, Os}
use knuu.K8s.Types.{KubeManager, Labels}
use knuu.Instance.State.{State, state_eq}
use knuu.Instance.World.{Ref, World, Instance, SidecarManager}
use knuu.Instance.Access.{require_state, edit, self, set_state}
use knuu.Instance.Access.Frame.{Frame}
use knuu.Instance.Build
use knuu.Instance.Build.{use_cache, committed_as}
use knuu.Instance.Sidecars.Frame.{set_state_for_sidecars-Each}
use knuu.Instance.Execution
use knuu.Instance.Execution.{set_state_of_all}
use knuu.Instance.Operation.{Operation, run, set_image, commit, start_async, stop, destroy}
use knuu.Instance.Operation.Steps.{target}

module _ ⦃f : Foreign⦄ where
  abbrev pub Has : Ref → State → World → Type 0
  Has i s w = (w.instances i).state ≡ s

  abbrev pub KeepsHas : State → Instance → Instance → Type 0
  KeepsHas s a b = a.state ≡ s → b.state ≡ s

  pub KeepsHas-Frame : (s : State) → Frame (KeepsHas s)
  KeepsHas-Frame s = record {
    same = λ a h. h;
    chain = λ {a} {b} {c} r s h. s (r h);
    build = λ a x h. h;
    resources = λ a x h. h;
    monitoring = λ a x h. h;
    security = λ a x h. h;
    service = λ a x h. h;
    files = λ a x h. h;
    replica_set = λ a x h. h;
    parent = λ a x h. h;
  }

  refl_eq : (i : Ref) → (i == i) ≡ true
  refl_eq i = (==_iff i i).1 refl

  set_state-Has : (i : Ref) (s : State) (w : World) → Has i s (set_state i s w).0
  unfolding set_state edit modify
  set_state-Has i s w = rw (refl_eq i) refl

  set_state-Ensures : (i : Ref) (s : State) → Ensures (Has i s) (set_state i s)
  set_state-Ensures i s = record {
    at = λ w. OnOk-of (Has i s) (set_state i s w) (set_state-Has i s w);
  }

  set_state_of_all-Ensures : (i : Ref) (s : State) → Ensures (Has i s) (set_state_of_all i s)
  unfolding set_state_of_all set_state edit modify self ◌>>=◌
  set_state_of_all-Ensures i s = record {
    at = λ w.
        let w' = (set_state i s w).0 in
        OnOk-of (Has i s) (set_state_of_all i s w) (
          ((set_state_for_sidecars-Each (KeepsHas-Frame s) (w'.instances i).sidecars.sidecars s
                (λ a h. refl)).at
              w').at
            i (set_state-Has i s w));
  }

  use_cache-Ensures :
      ⦃o : Os⦄ (i b : Ref) (h name : Text) (cached : Option Text)
      → Ensures (Has i State.committed) (use_cache i b h name cached)
  use_cache-Ensures i b h name none = search (outcome_rules, set_state-Ensures) depth 12
  use_cache-Ensures i b h name (some cached) = search (outcome_rules, set_state-Ensures) depth 12

  set_image-Ensures :
      ⦃o : Os⦄ (i : Ref) (image : Text) (args : Labels)
      → Ensures (Has i State.preparing) (Build.set_image i image args)
  unfolding Build.set_image
  set_image-Ensures i image args = search (outcome_rules, set_state-Ensures) depth 12

  commit-Ensures : ⦃o : Os⦄ (i : Ref) → Ensures (Has i State.committed) (Build.commit i)
  unfolding Build.commit
  commit-Ensures i = search (outcome_rules, set_state-Ensures, use_cache-Ensures) depth 24

  is_destroyed : (s : State) → state_eq s State.destroyed ≡ true → s ≡ State.destroyed
  is_destroyed State.destroyed h = refl
  is_destroyed _ h = cc

  nothing : {s : State} → none ≡ some s → ⊥
  nothing h = cc

  module _ ⦃k : KubeManager⦄ (i : Ref) where
    rest_of_destroy : Ensures (Has i State.destroyed) do
      require_state i (State.started ∷ State.stopped ∷ []) destroying_not_allowed
      Execution.destroy_all i
      set_state_of_all i State.destroyed
    rest_of_destroy = search (outcome_rules, set_state_of_all-Ensures) depth 12

    stop-Ensures : Ensures (Has i State.stopped) (Execution.stop i)
    unfolding Execution.stop
    stop-Ensures = search (outcome_rules, set_state_of_all-Ensures) depth 12

    pub destroy-Ensures : Ensures (Has i State.destroyed) (Execution.destroy i)
    unfolding Execution.destroy self ◌>>=◌ when
    destroy-Ensures = record {
      at = λ w. elim (Bool-cases (state_eq (w.instances i).state State.destroyed)) [
        | inl e ↦ rw e (is_destroyed (w.instances i).state e)
        | inr e ↦ rw e (rest_of_destroy.at w)
      ];
    }

    start_async-Ensures :
        ⦃o : Os⦄ ⦃m : SidecarManager⦄ → Ensures (Has i State.started) (Execution.start_async i)
    unfolding Execution.start_async
    start_async-Ensures = search (outcome_rules, set_state_of_all-Ensures) depth 12

  module _ ⦃k : KubeManager⦄ ⦃o : Os⦄ ⦃m : SidecarManager⦄ where
    run-Ensures :
        (op : Operation) (i : Ref) (s : State) → target op ≡ some s → Ensures (Has i s) (run op i)
    unfolding run
    run-Ensures (set_image image args) i s h =
        let e : s ≡ State.preparing = cc in rw e (set_image-Ensures i image args)
    run-Ensures commit i s h = let e : s ≡ State.committed = cc in rw e (commit-Ensures i)
    run-Ensures start_async i s h = let e : s ≡ State.started = cc in rw e (start_async-Ensures i)
    run-Ensures stop i s h = let e : s ≡ State.stopped = cc in rw e (stop-Ensures i)
    run-Ensures destroy i s h = let e : s ≡ State.destroyed = cc in rw e (destroy-Ensures i)
    run-Ensures _ i s h = absurd (nothing h)

    -- SetImage, Commit, StartAsync, Stop and Destroy bring their instance into the state Preparing,
    -- Committed, Started, Stopped and Destroyed, when they return no error.
    pub run_ok-state :
        (op : Operation) (i : Ref) (s : State) (w w' : World)
        → target op ≡ some s
        → run op i w ≡ (w', ok tt)
        → (w'.instances i).state ≡ s
    run_ok-state op i s w w' h e = Ensures-on_ok (Has i s) (run-Ensures op i s h) w w' tt e
