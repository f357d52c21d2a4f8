-- ===== src/Instance/Sidecars/States.antt =====
-- setStateForSidecars reaches every sidecar, when it returns.
use knuu.Prelude.{
  ◌≡◌, refl, ap, ◌∙◌, Option-cases, inl, inr, Option, none, some, List, [], ◌∷◌, Bool-cases, ◌==◌,
  ==_iff, All,
}
use knuu.Action.{Action, each, ◌>>=◌, modify, pure}
use knuu.Action.Moves.{IsPreorder, Moves, moves_rules}
use knuu.Action.Outcomes.{Ensures, OnOk, Ensures-both, OnOk-use}
use knuu.Host.{Foreign}
use knuu.Instance.State.{State}
use knuu.Instance.World.{Ref, World}
use knuu.Instance.Access.{edit, deref}
use knuu.Instance.Sidecars.{sidecar, instance_of, set_state_for_sidecars}

module _ ⦃f : Foreign⦄ (s : State) where
  -- The sidecar has an instance, in the state `s`.
  abbrev pub SidecarHas : World → f.Manager → Type 0
  SidecarHas w sc = (j : Ref) × ((w.sidecar_instance sc ≡ some j) × ((w.instances j).state ≡ s))

  -- Instances in the state `s` stay in it, and no manager gets another instance or sidecars.
  pub record Later (w w' : World) : Type 0 where
    pub managers : w'.sidecar_instance ≡ w.sidecar_instance
    pub states : (j : Ref) → (w.instances j).state ≡ s → (w'.instances j).state ≡ s
    pub lists : (j : Ref) → (w'.instances j).sidecars ≡ (w.instances j).sidecars

  Later-preorder : IsPreorder Later
  Later-preorder = record {
    same = λ w. record { managers = refl; states = λ j h. h; lists = λ j. refl };
    chain = λ r t. record {
      managers = cc;
      states = λ j h. t.states j (r.states j h);
      lists = λ j. let a = r.lists j in let b = t.lists j in cc;
    };
  }

  set_state_Later : (j : Ref) → Moves Later (edit j (λ inst. record inst { state = s }))
  unfolding edit modify
  set_state_Later j = record {
    at = λ w. record {
      managers = refl;
      states = λ l. elim (Bool-cases (j == l)) [ inl e ↦ rw e λ h. refl | inr e ↦ rw e λ h. h ];
      lists = λ l. elim (Bool-cases (j == l)) [
        | inl e ↦ rw e (rw ((==_iff j l).0 e) refl)
        | inr e ↦ rw e refl
      ];
    };
  }

  deref-Later : {A : Type 0} (a : Option A) → Moves Later (deref a)
  unfolding deref
  deref-Later none = search (moves_rules, Later-preorder)
  deref-Later (some a) = search (moves_rules, Later-preorder)

  sidecar-Later : (sc : f.Manager) → Moves Later (sidecar sc)
  unfolding sidecar instance_of
  sidecar-Later sc = search (moves_rules, Later-preorder, deref-Later)

  abbrev set_one : f.Manager → Action World (Unit {0})
  set_one sc = sidecar sc >>= λ j. edit j (λ inst. record inst { state = s })

  set_one-Ensures : (sc : f.Manager) → Ensures (λ w. SidecarHas w sc) (set_one sc)
  unfolding sidecar instance_of deref edit modify ◌>>=◌
  set_one-Ensures sc = record {
    at = λ w. elim (Option-cases (w.sidecar_instance sc)) [
      | inl e ↦ rw e tt
      | inr (j, e) ↦ rw e (j, (e, rw ((==_iff j j).1 refl) refl))
    ];
  }

  set_one-Later : (sc : f.Manager) → Moves Later (set_one sc)
  set_one-Later sc = search (moves_rules, Later-preorder, sidecar-Later, set_state_Later)

  kept : (sc : f.Manager) (w v : World) → Later w v → SidecarHas w sc → SidecarHas v sc
  kept sc w v l (j, (e, h)) = (j, (ap (λ g. g sc) l.managers ∙ e, l.states j h))

  each-Later : (scs : List f.Manager) → Moves Later (each set_one scs)
  each-Later scs = search (moves_rules, Later-preorder, set_one-Later)

  each-Ensures :
      (scs : List f.Manager) → Ensures (λ w. All (λ sc. SidecarHas w sc) scs) (each set_one scs)
  unfolding each pure
  each-Ensures [] = record { at = λ w. tt }
  each-Ensures (sc ∷ scs) =
      Ensures-both (λ w. SidecarHas w sc) (λ w. All (λ sc. SidecarHas w sc) scs) Later (set_one sc)
        _ (kept sc) (set_one-Ensures sc) (λ _. each-Ensures scs) (λ _. each-Later scs)

  -- The sidecars of the instance `i` have instances, in the state `s`.
  abbrev pub SidecarsHave : Ref → World → Type 0
  SidecarsHave i w = All (λ sc. SidecarHas w sc) (w.instances i).sidecars.sidecars

  pub set_state_for_sidecars-Ensures :
      (i : Ref) (w : World)
      → OnOk (SidecarsHave i) (set_state_for_sidecars (w.instances i).sidecars.sidecars s w)
  unfolding set_state_for_sidecars
  set_state_for_sidecars-Ensures i w =
      let scs = (w.instances i).sidecars.sidecars in
      OnOk-use (λ v. All (λ sc. SidecarHas v sc) scs) (SidecarsHave i) Later w (each set_one scs w)
        ((each-Later scs).at w) (λ t l h. rw (ap (λ x. x.sidecars) (l.lists i)) h)
        ((each-Ensures scs).at w)
