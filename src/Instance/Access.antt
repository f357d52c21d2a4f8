-- ===== src/Instance/Access.antt =====
-- Reading and writing one instance; SetState, and the test on the state that opens most methods.
pub mod Frame
use knuu.Prelude.{Bool, List, Option, none, some, [], ◌∷◌}
use knuu.Prelude.Text.{Text, codes}
use knuu.Errors.{Code, Error, wrapped, instance_code}
use knuu.Errors.Codes.{InstanceCode}
use knuu.Action.{Action, gets, modify, require, crash, pure, wrapping, raise, throw, ◌>>=◌, ◌>>◌}
use knuu.Host.{Foreign}
use knuu.K8s.Types.{Labels}
use knuu.Instance.State
use knuu.Instance.State.{State, is_in_state, type_name}
use knuu.Instance.World.{Ref, Instance, World, edit_instance}

-- The states in which an instance can be configured.
abbrev pub configurable : List State
configurable = State.preparing ∷ State.committed ∷ State.stopped ∷ []

-- return errX, and if err != nil { return errX.Wrap(err) }
abbrev pub fail : {S A : Type 0} → InstanceCode → Action S A
fail c = raise (instance_code c)

-- return errX.Wrap(err)
abbrev pub fail_over : {S A : Type 0} → InstanceCode → Error → Action S A
fail_over c e = throw (wrapped (instance_code c) e)

abbrev pub or_wrap : {S A : Type 0} → InstanceCode → Action S A → Action S A
or_wrap c m = wrapping (instance_code c) m

abbrev pub guard : {S : Type 0} → Bool → InstanceCode → Action S (Unit {0})
guard b c = require b (instance_code c)

-- A pointer that must not be nil.
unfoldable pub deref : {S A : Type 0} → Option A → Action S A
deref none = crash
deref (some a) = pure a

module _ ⦃f : Foreign⦄ where
  unfoldable pub self : Ref → Action World Instance
  self i = gets (λ w. w.instances i)

  unfoldable pub edit : Ref → (Instance → Instance) → Action World (Unit {0})
  edit i g = modify (edit_instance i g)

  unfoldable pub require_state : Ref → List State → InstanceCode → Action World (Unit {0})
  require_state i states c = do inst ← self i; guard (is_in_state inst.state states) c

  unfoldable pub set_state : Ref → State → Action World (Unit {0})
  set_state i s = edit i (λ inst. record inst { state = s })

  -- Labels of execution.go.
  unfoldable pub labels : Ref → Action World Labels
  labels i = gets λ w.
      let inst = w.instances i in
      (codes "app", inst.name)
      ∷ (codes "k8s.kubernetes.io/managed-by", codes "knuu")
      ∷ (codes "knuu.sh/scope", w.scope)
      ∷ (codes "knuu.sh/test-started", w.start_time)
      ∷ (codes "knuu.sh/name", inst.name)
      ∷ (codes "knuu.sh/k8s-name", inst.name)
      ∷ (codes "knuu.sh/type", type_name inst.instance_type)
      ∷ []
