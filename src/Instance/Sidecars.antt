-- ===== src/Instance/Sidecars.antt =====
-- sidecars.go: the sidecars of an instance. Each is a SidecarManager, which has an instance.
pub mod Frame
pub mod States
use knuu.Prelude.{Bool, true, not, List, [], ◌∷◌, ◌++◌, Option, none, some}
use knuu.Prelude.Text.{Text}
use knuu.Errors.{instance_code, wrapped, Result, ok, err, panic}
use knuu.Errors.Codes.{
  sidecar_is_nil, adding_sidecar_not_allowed, initializing_sidecar, sidecar_instance_is_nil,
  sidecar_not_committed, sidecar_cannot_have_sidecar, starting_not_allowed_for_sidecar,
  applying_function_to_sidecar,
}
use knuu.Action.{Action, pure, gets, each, attempt, throw, crash, ◌>>=◌, ◌>>◌}
use knuu.Host.{Foreign}
use knuu.Instance.State
use knuu.Instance.State.{State, is_in_state}
use knuu.Instance.World.{Ref, World, Instance, Sidecars, SidecarManager}
use knuu.Instance.Access.{configurable, fail, or_wrap, guard, deref, self, edit, require_state}

module _ ⦃f : Foreign⦄ where
  abbrev pub edit_sidecars : Ref → (Sidecars → Sidecars) → Action World (Unit {0})
  edit_sidecars i g = edit i (λ inst. record inst { sidecars = g inst.sidecars })

  pub set_is_sidecar : Ref → Bool → Action World (Unit {0})
  set_is_sidecar i is_sidecar = edit_sidecars i (λ s. record s { is_sidecar = is_sidecar })

  -- sc.Instance(), which is nil before Initialize; and its use as a pointer.
  unfoldable pub instance_of : f.Manager → Action World (Option Ref)
  instance_of sc = gets (λ w. w.sidecar_instance sc)

  unfoldable pub sidecar : f.Manager → Action World Ref
  unfolding instance_of
  sidecar sc = do found ← instance_of sc; deref found

  -- verifySidecarsStates
  unfoldable pub verify_sidecars_states : List f.Manager → Action World (Unit {0})
  verify_sidecars_states scs =
      each
        (λ sc. do
          j ← sidecar sc
          inst ← self j
          guard (is_in_state inst.state (State.committed ∷ State.stopped ∷ []))
              starting_not_allowed_for_sidecar)
        scs

  -- The error of `fn`, which names the instance of the sidecar.
  unfoldable pub named_error : f.Manager → Result (Unit {0}) → Action World (Unit {0})
  named_error sc (ok _) = pure tt
  named_error sc (err e) = do
    sidecar sc
    throw (wrapped (instance_code applying_function_to_sidecar) e)
  named_error sc panic = crash

  unfoldable pub apply_to :
      (f.Manager → Action World (Unit {0})) → f.Manager → Action World (Unit {0})
  unfolding named_error
  apply_to fn sc = do tried ← attempt (fn sc); named_error sc tried

  -- applyFunctionToSidecars
  unfoldable pub apply_function_to_sidecars :
      (f.Manager → Action World (Unit {0})) → List f.Manager → Action World (Unit {0})
  unfolding apply_to
  apply_function_to_sidecars fn scs = each (apply_to fn) scs

  -- setStateForSidecars; the function that it applies returns no error.
  unfoldable pub set_state_for_sidecars : List f.Manager → State → Action World (Unit {0})
  set_state_for_sidecars scs s =
      each (λ sc. do j ← sidecar sc; edit j (λ inst. record inst { state = s })) scs

  module _ ⦃m : SidecarManager⦄ where
    -- The part of Add behind the nil test of the sidecar's instance.
    checked_sidecar : Ref → f.Manager → Option Ref → Action World (Unit {0})
    checked_sidecar i sc none = fail sidecar_instance_is_nil
    checked_sidecar i sc (some j) = do
      side ← self j
      guard (is_in_state side.state (State.committed ∷ [])) sidecar_not_committed
      inst ← self i
      guard (not inst.sidecars.is_sidecar) sidecar_cannot_have_sidecar
      edit_sidecars i (λ s. record s { sidecars = s.sidecars ++ sc ∷ [] })
      edit j (λ a. record a { parent_instance = some i })

    add_some : Ref → f.Manager → Action World (Unit {0})
    unfolding checked_sidecar
    add_some i sc = do
      require_state i configurable adding_sidecar_not_allowed
      inst ← self i
      or_wrap initializing_sidecar (m.initialize sc inst.name)
      found ← instance_of sc
      checked_sidecar i sc found

    pub add : Ref → Option f.Manager → Action World (Unit {0})
    unfolding add_some
    add i none = fail sidecar_is_nil
    add i (some sc) = add_some i sc

    -- clone: the managers that Clone returns. The clone is no sidecar.
    pub clone_all : List f.Manager → Text → Action World (List f.Manager)
    clone_all [] name_prefix = pure []
    clone_all (sc ∷ scs) name_prefix = do
      cloned ← m.clone sc name_prefix
      rest ← clone_all scs name_prefix
      pure (cloned ∷ rest)
