-- ===== src/Instance/Naming/Creating.antt =====
-- Instances that New makes have names of their own.
use knuu.Prelude.{
  ◌≡◌, refl, ap, ◌∙◌, ◌⊎◌, true, false, inl, inr, some, [], ◌+◌, Bool-cases, Option-cases, ◌==◌,
  ==_iff,
}
use knuu.Prelude.Text.{Text}
use knuu.Errors.{Result, ok, err, panic}
use knuu.Action.{pure, continue, ◌>>=◌}
use knuu.Action.Moves.{IsPreorder, Moves, moves_rules}
use knuu.Host.{Foreign}
use knuu.Instance.World.{Ref, World, Instance, update}
use knuu.K8s.Sanitize.{sanitize_name}
use knuu.Instance.Access.{deref}
use knuu.Instance.Naming.{blank, allocate, has_instance_name, set_name, new}
use knuu.Instance.Naming.Distinct.{
  HasProperNames, name_of, renamed, set_name_free, set_name-HasProperNames,
}

module _ {A : Type 0} (h : Ref → A) (a : A) (i j : Ref) where
  at_same : (i == j) ≡ true → update h i a j ≡ a
  at_same e = rw e refl

  at_other : (i == j) ≡ false → update h i a j ≡ h j
  at_other e = rw e refl

module _ ⦃f : Foreign⦄ where
  abbrev KeepsNames : World → World → Type 0
  KeepsNames w w' = HasProperNames w → HasProperNames w'

  KeepsNames-preorder : IsPreorder KeepsNames
  KeepsNames-preorder = record { same = λ w h. h; chain = λ r s h. s (r h) }

  -- Some names are taken away.
  fewer_names :
      (w v : World)
      → ((j : Ref) → ((v.instances j).name ≡ []) ⊎ ((v.instances j).name ≡ (w.instances j).name))
      → v.instance_names ≡ w.instance_names
      → KeepsNames w v
  fewer_names w v h n d = record {
    registered = λ j. elim (h j) [ inl e ↦ λ k. absurd (k e) | inr e ↦ rw (e, n) (d.registered j) ];
    valid = λ j. elim (h j) [ inl e ↦ λ k. absurd (k e) | inr e ↦ rw e (d.valid j) ];
    distinct = λ j l. elim (h j) [
      | inl e ↦ λ k c. absurd (k e)
      | inr e ↦ elim (h l) [
        | inl e' ↦ λ k c. absurd (k (c ∙ e'))
        | inr e' ↦ rw (e, e') (d.distinct j l)
      ]
    ];
  }

  placed :
      (i n : Ref) (a : Instance) (w : World)
      → a.name ≡ []
      → KeepsNames w (record w { instances = update w.instances i a; next_instance = n })
  placed i n a w e =
      let v : World = record w { instances = update w.instances i a; next_instance = n } in
      fewer_names w v
        (λ j. elim (Bool-cases (i == j)) [
          | inl c ↦ inl (ap (λ x. x.name) (at_same w.instances a i j c) ∙ e)
          | inr c ↦ inr (ap (λ x. x.name) (at_other w.instances a i j c))
        ])
        refl

  allocate-KeepsNames : (a : Instance) → a.name ≡ [] → Moves KeepsNames (allocate a)
  unfolding allocate ◌>>=◌
  allocate-KeepsNames a e = record { at = λ w. placed w.next_instance _ a w e }

  -- What a New that succeeds has made: an instance in a new place, whose name is the sanitized one and
  -- was not registered.
  abbrev pub IsNew : Text → World → World × Result Ref → Type 0
  IsNew name w (w', ok i) =
      (i ≡ w.next_instance)
      × ((sanitize_name name ≡ some (name_of w' i))
          × (has_instance_name (name_of w' i) w.instance_names ≡ false))
  IsNew name w (w', err e) = Unit
  IsNew name w (w', panic) = Unit

  -- The place that New takes, before the name is set.
  abbrev placed_blank : World → World
  placed_blank w = record w {
    instances = update w.instances w.next_instance blank;
    next_instance = w.next_instance + 1;
  }

  abbrev IsSetting : Text → World → World × Result (Unit {0}) → Type 0
  IsSetting name w (w', ok u) =
      (sanitize_name name ≡ some (name_of w' w.next_instance))
      × (has_instance_name (name_of w' w.next_instance) w.instance_names ≡ false)
  IsSetting name w (w', err e) = Unit
  IsSetting name w (w', panic) = Unit

  free-IsSetting :
      (name s : Text) (w : World)
      → sanitize_name name ≡ some s
      → has_instance_name s w.instance_names ≡ false
      → IsSetting name w (renamed w.next_instance s (placed_blank w), ok tt)
  free-IsSetting name s w e h =
      let i = w.next_instance in
      let v = placed_blank w in
      let c : name_of (renamed i s v) i ≡ s =
        ap (λ a. a.name)
          (at_same v.instances (record (v.instances i) { name = s }) i i ((==_iff i i).1 refl)) in
      rw c (e, h)

  set_name-IsSetting :
      (name : Text) (w : World) → IsSetting name w (set_name w.next_instance name (placed_blank w))
  set_name-IsSetting name w = elim (Option-cases (sanitize_name name)) [
    | inl e ↦ unfold set_name deref ◌>>=◌ in rw e tt
    | inr (s, e) ↦ elim (Bool-cases (has_instance_name s w.instance_names)) [
      | inl h ↦ unfold set_name deref ◌>>=◌ in rw (e, h) tt
      | inr h ↦
          rw (set_name_free w.next_instance name s (placed_blank w) e h)
            (free-IsSetting name s w e h)
    ]
  ]

  returned-IsNew :
      (name : Text) (w : World) (o : World × Result (Unit {0}))
      → IsSetting name w o
      → IsNew name w (continue o.1 (λ u. pure w.next_instance) o.0)
  unfolding pure
  returned-IsNew name w (w', ok u) h = (refl, h)
  returned-IsNew name w (w', err e) h = tt
  returned-IsNew name w (w', panic) h = tt

  new-IsNew : (name : Text) (w : World) → IsNew name w (new name w)
  unfolding new allocate ◌>>=◌
  new-IsNew name w = returned-IsNew name w _ (set_name-IsSetting name w)

  -- New keeps the names proper, whether it succeeds or not; and when it succeeds, the instance stands
  -- in a new place, and its name is the sanitized one, which was not registered before.
  pub new-HasProperNames :
      (name : Text) (w : World)
      → HasProperNames w
      → HasProperNames (new name w).0 × IsNew name w (new name w)
  unfolding new
  new-HasProperNames name w d =
      let named : (i : Ref) → Moves KeepsNames (set_name i name) =
        λ i. record { at = λ v. set_name-HasProperNames i name v } in
      let placing : Moves KeepsNames (allocate blank) = allocate-KeepsNames blank refl in
      let whole : Moves KeepsNames (new name) =
        search (moves_rules, KeepsNames-preorder, named) depth 12 in
      (whole.at w d, new-IsNew name w)
