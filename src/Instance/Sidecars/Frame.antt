-- ===== src/Instance/Sidecars/Frame.antt =====
-- What the operations on the sidecars leave alone.
use knuu.Prelude.{List}
use knuu.Errors.{Result, ok, err, panic}
use knuu.Action.{Action}
use knuu.Action.Moves.{Moves, moves_rules}
use knuu.Host.{Foreign}
use knuu.Instance.State.{State}
use knuu.Instance.World.{World, Instance}
use knuu.Instance.Access.Frame.{Frame, Each, frame_rules}
use knuu.Instance.Sidecars.{
  instance_of, sidecar, verify_sidecars_states, named_error, apply_to, apply_function_to_sidecars,
  set_state_for_sidecars,
}

module _ ⦃f : Foreign⦄ {Q : Instance → Instance → Type 0} (q : Frame Q) where
  pub instance_of-Each : (sc : f.Manager) → Moves (Each Q) (instance_of sc)
  unfolding instance_of
  instance_of-Each sc = search (moves_rules, frame_rules)

  pub sidecar-Each : (sc : f.Manager) → Moves (Each Q) (sidecar sc)
  unfolding sidecar
  sidecar-Each sc = search (moves_rules, frame_rules, instance_of-Each)

  pub verify_sidecars_states-Each :
      (scs : List f.Manager) → Moves (Each Q) (verify_sidecars_states scs)
  unfolding verify_sidecars_states
  verify_sidecars_states-Each scs = search (moves_rules, frame_rules, sidecar-Each) depth 12

  named_error-Each : (sc : f.Manager) (r : Result (Unit {0})) → Moves (Each Q) (named_error sc r)
  unfolding named_error
  named_error-Each sc (ok _) = search (moves_rules, frame_rules)
  named_error-Each sc (err e) = search (moves_rules, frame_rules, sidecar-Each)
  named_error-Each sc panic = search (moves_rules, frame_rules)

  apply_to-Each :
      (fn : f.Manager → Action World (Unit {0}))
      → ((sc : f.Manager) → Moves (Each Q) (fn sc))
      → (sc : f.Manager) → Moves (Each Q) (apply_to fn sc)
  unfolding apply_to
  apply_to-Each fn h sc = search (moves_rules, frame_rules, named_error-Each, h)

  pub apply_function-Each :
      (fn : f.Manager → Action World (Unit {0})) (scs : List f.Manager)
      → ((sc : f.Manager) → Moves (Each Q) (fn sc))
      → Moves (Each Q) (apply_function_to_sidecars fn scs)
  unfolding apply_function_to_sidecars
  apply_function-Each fn scs h = search (moves_rules, frame_rules, apply_to-Each fn h)

  pub set_state_for_sidecars-Each :
      (scs : List f.Manager) (s : State)
      → ((a : Instance) → Q a (record a { state = s }))
      → Moves (Each Q) (set_state_for_sidecars scs s)
  unfolding set_state_for_sidecars
  set_state_for_sidecars-Each scs s h = search (moves_rules, frame_rules, sidecar-Each, h) depth 12
