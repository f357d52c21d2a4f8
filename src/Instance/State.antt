-- ===== src/Instance/State.antt =====
-- state.go and type.go: the states and the types of an instance. A state is one of the six
-- constants, so the "Unknown" of `String` is not reached.
use knuu.Prelude.{ℕ, Bool, List, ◌==◌, any}
use knuu.Prelude.Text.{Text, codes}

pub data State : Type 0 where
  none preparing committed started stopped destroyed : State

-- The value of the constant, from `iota`.
abbrev pub index : State → ℕ
index none = 0
index preparing = 1
index committed = 2
index started = 3
index stopped = 4
index destroyed = 5

abbrev pub state_eq : State → State → Bool
state_eq s t = index s == index t

-- IsInState, and IsState for one state.
abbrev pub is_in_state : State → List State → Bool
is_in_state s states = any (state_eq s) states

pub data InstanceType : Type 0 where
  unknown_instance basic_instance timeout_handler_instance : InstanceType

abbrev pub type_name : InstanceType → Text
type_name basic_instance = codes "BasicInstance"
type_name timeout_handler_instance = codes "TimeoutHandlerInstance"
type_name unknown_instance = codes "Unknown"
