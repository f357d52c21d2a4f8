-- ===== src/Instance/Operation/Lifecycle.antt =====
-- The states that an instance goes through, as a graph, and what every operation does to the states
-- of all instances.
use knuu.Prelude.{◌≡◌, refl, true, ◌⊎◌, inl, inr, Option, none, some, List, [], ◌∷◌, Bool-cases}
use knuu.Errors.{Error, err}
use knuu.Action.Moves.{Moves}
use knuu.Host.{Foreign, Os}
use knuu.K8s.Types.{KubeManager}
use knuu.Instance.State.{State, is_in_state}
use knuu.Instance.World.{Ref, World, Instance, SidecarManager}
use knuu.Instance.Access.Frame.{Frame, Each}
use knuu.Instance.Storage.Frame as StorageFrame
use knuu.Instance.Network.Frame as NetworkFrame
use knuu.Instance.Operation.{Operation, run, allowed, set_image, commit, start_async, stop, destroy}
use knuu.Instance.Operation.Steps.{target, Rest, run-Each}
use knuu.Instance.Operation.Failing.{
  SameState, set_image-FailsIn, commit-FailsIn, start_async-FailsIn, stop-FailsIn, destroy-FailsIn,
}
use knuu.Action.Failures.{FailsIn, FailsIn-of_Moves, FailsIn-on_err}
use knuu.Instance.Operation.Refusal.{run_refused}

-- The steps of an instance from one state to another.
pub data Edge : State → State → Type 0 where
  stay : (s : State) → Edge s s
  prepare : Edge State.none State.preparing
  prepare_again : Edge State.stopped State.preparing
  build : Edge State.preparing State.committed
  start_first : Edge State.committed State.started
  start_again : Edge State.stopped State.started
  halt : Edge State.started State.stopped
  destroy_started : Edge State.started State.destroyed
  destroy_stopped : Edge State.stopped State.destroyed

into : (s u t : State) → some u ≡ some t → Edge s u → Edge s t
into s u t e d = let e' : t ≡ u = cc in rw e' d

module _ ⦃f : Foreign⦄ where
  Edge-allowed :
      (op : Operation) (s t : State)
      → is_in_state s (allowed op) ≡ true
      → target op ≡ some t
      → Edge s t
  unfolding allowed
  Edge-allowed (set_image image args) State.none t h e = into State.none State.preparing t e prepare
  Edge-allowed (set_image image args) State.preparing t h e =
      into State.preparing State.preparing t e (stay State.preparing)
  Edge-allowed (set_image image args) State.stopped t h e =
      into State.stopped State.preparing t e prepare_again
  Edge-allowed (set_image image args) _ t h e = cc
  Edge-allowed commit State.preparing t h e = into State.preparing State.committed t e build
  Edge-allowed commit _ t h e = cc
  Edge-allowed start_async State.committed t h e =
      into State.committed State.started t e start_first
  Edge-allowed start_async State.stopped t h e = into State.stopped State.started t e start_again
  Edge-allowed start_async _ t h e = cc
  Edge-allowed stop State.started t h e = into State.started State.stopped t e halt
  Edge-allowed stop _ t h e = cc
  Edge-allowed destroy State.started t h e = into State.started State.destroyed t e destroy_started
  Edge-allowed destroy State.stopped t h e = into State.stopped State.destroyed t e destroy_stopped
  Edge-allowed destroy State.destroyed t h e =
      into State.destroyed State.destroyed t e (stay State.destroyed)
  Edge-allowed destroy _ t h e = cc
  Edge-allowed _ s t h e = cc

  -- The state is kept, or it is the one that the operation sets.
  abbrev pub Reaches : Option State → Instance → Instance → Type 0
  Reaches goal a b = (b.state ≡ a.state) ⊎ (goal ≡ some b.state)

  Reaches-chain :
      (goal : Option State) (a b c : Instance)
      → Reaches goal a b
      → Reaches goal b c
      → Reaches goal a c
  Reaches-chain goal a b c (inl e) (inl e') = inl cc
  Reaches-chain goal a b c (inr e) (inl e') = inr cc
  Reaches-chain goal a b c r (inr e') = inr e'

  pub Reaches-Frame : (goal : Option State) → Frame (Reaches goal)
  Reaches-Frame goal = record {
    same = λ a. inl refl;
    chain = λ {a} {b} {c} r s. Reaches-chain goal a b c r s;
    build = λ a x. inl refl;
    resources = λ a x. inl refl;
    monitoring = λ a x. inl refl;
    security = λ a x. inl refl;
    service = λ a x. inl refl;
    files = λ a x. inl refl;
    replica_set = λ a x. inl refl;
    parent = λ a x. inl refl;
  }

  module _ ⦃k : KubeManager⦄ ⦃o : Os⦄ ⦃m : SidecarManager⦄ where
    -- The state after a sequence of operations on one instance, failed ones included.
    abbrev pub run_all : List Operation → Ref → World → World
    run_all [] i w = w
    run_all (op ∷ ops) i w = run_all ops i (run op i w).0

  module _ ⦃k : KubeManager⦄ ⦃o : Os⦄ ⦃m : SidecarManager⦄
      (safe : (sc : f.Manager) → Moves (Each SameState) (m.pre_start sc)) where
    Reaches-Rest : (goal : Option State) → Rest (Reaches goal)
    Reaches-Rest goal = record {
      tcp = NetworkFrame.add_port_tcp-Each (Reaches-Frame goal) (λ a ps. inl refl);
      udp = NetworkFrame.add_port_udp-Each (Reaches-Frame goal) (λ a ps. inl refl);
      volume = StorageFrame.add_volume-Each (Reaches-Frame goal) (λ a vs. inl refl);
      owned_volume =
          StorageFrame.add_volume_with_owner-Each (Reaches-Frame goal) (λ a vs. inl refl);
      pre_start = λ sc. record { at = λ w. record { at = λ j. inl (((safe sc).at w).at j) } };
    }

    -- Whatever its result, an operation leaves every instance of the program in the state that it
    -- had or in the state that the operation sets, if PreStart of the sidecars keeps the states.
    pub run-Reaches :
        (op : Operation) (i j : Ref) (w : World)
        → Reaches (target op) (w.instances j) ((run op i w).0.instances j)
    run-Reaches op i j w =
        ((run-Each (Reaches-Frame (target op)) (Reaches-Rest (target op)) op i (λ s e a. inr e)).at
            w).at
          j

    -- Whatever its result, an operation moves its instance along an edge of the graph of states, if
    -- PreStart of the sidecars keeps the states.
    pub run-Edge :
        (op : Operation) (i : Ref) (w : World)
        → Edge (w.instances i).state ((run op i w).0.instances i).state
    run-Edge op i w = elim (Bool-cases (is_in_state (w.instances i).state (allowed op))) [
      | inl h ↦ elim (run-Reaches op i i w) [
        | inl e ↦ rw e (stay (w.instances i).state)
        | inr e ↦ Edge-allowed op _ _ h e
      ]
      | inr h ↦ let (c, e) = run_refused op i w h in rw e (stay (w.instances i).state)
    ]

    kept : (goal : Option State) (a b : Instance) → goal ≡ none → Reaches goal a b → SameState a b
    kept goal a b h (inl e) = e
    kept goal a b h (inr e) = cc

    run_without_target :
        (op : Operation) (i : Ref) → target op ≡ none → FailsIn (Each SameState) (run op i)
    run_without_target op i h = FailsIn-of_Moves (Each SameState) (run op i) (record {
      at = λ w. record {
        at = λ j.
            kept (target op) (w.instances j) ((run op i w).0.instances j) h (run-Reaches op i j w);
      };
    })

    run-FailsIn : (op : Operation) (i : Ref) → FailsIn (Each SameState) (run op i)
    unfolding run
    run-FailsIn (set_image image args) i = set_image-FailsIn i image args
    run-FailsIn commit i = commit-FailsIn i
    run-FailsIn start_async i = start_async-FailsIn i safe
    run-FailsIn stop i = stop-FailsIn i
    run-FailsIn destroy i = destroy-FailsIn i
    run-FailsIn op i = run_without_target op i refl

    -- An operation that returns an error has left every instance in the state that it had, if
    -- PreStart of the sidecars keeps the states.
    pub run_err-state :
        (op : Operation) (i j : Ref) (w w' : World) (e : Error)
        → run op i w ≡ (w', err e)
        → (w'.instances j).state ≡ (w.instances j).state
    run_err-state op i j w w' e h =
        (FailsIn-on_err (Each SameState) (run-FailsIn op i) w w' e h).at j

    from_destroyed : (s t : State) → s ≡ State.destroyed → Edge s t → t ≡ State.destroyed
    from_destroyed _ _ h (stay s) = h
    from_destroyed _ _ h _ = cc

    -- No sequence of operations on a destroyed instance brings it into another state, if PreStart of
    -- the sidecars keeps the states.
    pub run_all-destroyed :
        (ops : List Operation) (i : Ref) (w : World)
        → (w.instances i).state ≡ State.destroyed
        → ((run_all ops i w).instances i).state ≡ State.destroyed
    run_all-destroyed [] i w h = h
    run_all-destroyed (op ∷ ops) i w h =
        run_all-destroyed ops i (run op i w).0 (from_destroyed _ _ h (run-Edge op i w))
