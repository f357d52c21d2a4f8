-- ===== src/Instance/Naming/Distinct.antt =====
-- No two instances share a name, because SetName asks the registry of names first.
use knuu.Prelude.{
  ◌≡◌, ◌≢◌, refl, sym, ap, ◌∙◌, true, false, inl, inr, none, some, List, [], ◌∷◌, if◌then◌else◌,
  Bool-cases, Option-cases, ◌==◌, ==_iff, arith,
}
use knuu.Prelude.Text.{Text, is_empty, text_eq_iff}
use knuu.Errors.{ok}
use knuu.Action.{when, modify, pure, ◌>>=◌}
use knuu.Host.{Foreign}
use knuu.K8s.Sanitize.{sanitize_name}
use knuu.K8s.Sanitize.Laws.{IsDnsLabel, sanitize_name-IsDnsLabel}
use knuu.Instance.World.{Ref, World, update}
use knuu.Instance.Access.{deref, self, edit}
use knuu.Instance.Naming.{has_instance_name, remove_instance_name, set_name}

has-remove :
    (n r : Text) (names : List Text)
    → n ≢ r
    → has_instance_name n names ≡ true
    → has_instance_name n (remove_instance_name r names) ≡ true
unfolding has_instance_name remove_instance_name
has-remove n r [] d h = cc
has-remove n r (x ∷ xs) d h = ground (arith, text_eq_iff x n, text_eq_iff x r, has-remove n r xs d)

has_other :
    (n x : Text) (names : List Text)
    → has_instance_name n names ≡ true
    → has_instance_name n (x ∷ names) ≡ true
unfolding has_instance_name
has_other n x names h = ground (arith, h)

has_first : (n : Text) (names : List Text) → has_instance_name n (n ∷ names) ≡ true
unfolding has_instance_name
has_first n names = rw ((text_eq_iff n n).1 refl) refl

module _ ⦃f : Foreign⦄ where
  abbrev pub name_of : World → Ref → Text
  name_of w i = (w.instances i).name

  -- Every name is registered, is a DNS-1123 label, and is the name of one instance.
  pub record HasProperNames (w : World) : Type 0 where
    pub registered :
        (i : Ref) → name_of w i ≢ [] → has_instance_name (name_of w i) w.instance_names ≡ true
    pub valid : (i : Ref) → name_of w i ≢ [] → IsDnsLabel (name_of w i)
    pub distinct : (i j : Ref) → name_of w i ≢ [] → name_of w i ≡ name_of w j → i ≡ j

  -- The registry after a new name has taken the place of an old one.
  abbrev pub replaced : Text → Text → List Text → List Text
  replaced old name names =
      if is_empty old then name ∷ names else remove_instance_name old (name ∷ names)

  abbrev pub renamed : Ref → Text → World → World
  renamed i name w = record w {
    instances = update w.instances i (record (w.instances i) { name = name });
    instance_names = replaced (name_of w i) name w.instance_names;
  }

  set_name_taken :
      (i : Ref) (given name : Text) (w : World)
      → sanitize_name given ≡ some name
      → has_instance_name name w.instance_names ≡ true
      → (set_name i given w).0 ≡ w
  unfolding set_name deref ◌>>=◌
  set_name_taken i given name w e h = rw (e, h) refl

  pub set_name_free :
      (i : Ref) (given name : Text) (w : World)
      → sanitize_name given ≡ some name
      → has_instance_name name w.instance_names ≡ false
      → set_name i given w ≡ (renamed i name w, ok tt)
  unfolding set_name deref ◌>>=◌ self edit modify when pure
  set_name_free i given name w e h =
      rw (e, h)
        (elim (Bool-cases (is_empty (name_of w i))) [ inl c ↦ rw c refl | inr c ↦ rw c refl ])

  not_empty : (t : Text) → is_empty t ≡ false → t ≢ []
  not_empty [] h e = cc
  not_empty (c ∷ t) h e = cc

  has-replaced :
      (n old name : Text) (names : List Text)
      → (old ≢ [] → n ≢ old)
      → has_instance_name n (name ∷ names) ≡ true
      → has_instance_name n (replaced old name names) ≡ true
  has-replaced n old name names d h = elim (Bool-cases (is_empty old)) [
    | inl e ↦ rw e h
    | inr e ↦ rw e (has-remove n old (name ∷ names) (d (not_empty old e)) h)
  ]

  module _ (i : Ref) (name : Text) (w : World) (d : HasProperNames w)
      (free : has_instance_name name w.instance_names ≡ false) (label : IsDnsLabel name) where
    -- A registered name is not the new one.
    not_registered : (n : Text) → has_instance_name n w.instance_names ≡ true → name ≢ n
    not_registered n h e = let h' : has_instance_name name w.instance_names ≡ true = rw e h in cc

    not_used : (j : Ref) → name_of w j ≢ [] → name ≢ name_of w j
    not_used j h = not_registered (name_of w j) (d.registered j h)

    other_registered :
        (j : Ref)
        → (i == j) ≡ false
        → name_of w j ≢ []
        → has_instance_name (name_of w j) (replaced (name_of w i) name w.instance_names) ≡ true
    other_registered j e h =
        has-replaced (name_of w j) (name_of w i) name w.instance_names
          (λ k c.
            let p : i ≡ j = d.distinct i j k (sym c) in
            let q : (i == j) ≡ true = (==_iff i j).1 p in cc)
          (has_other (name_of w j) name w.instance_names (d.registered j h))

    renamed-HasProperNames : HasProperNames (renamed i name w)
    renamed-HasProperNames = record {
      registered = λ j. elim (Bool-cases (i == j)) [
        | inl e ↦
            rw (name_of, e)
              λ h.
                has-replaced name (name_of w i) name w.instance_names (λ k. not_used i k)
                  (has_first name w.instance_names)
        | inr e ↦ rw (name_of, e) (other_registered j e)
      ];
      valid = λ j. elim (Bool-cases (i == j)) [
        | inl e ↦ rw (name_of, e) λ h. label
        | inr e ↦ rw (name_of, e) (d.valid j)
      ];
      distinct = λ j l. elim (Bool-cases (i == j)) [
        | inl e ↦ elim (Bool-cases (i == l)) [
          | inl e' ↦ rw (name_of, e, e') λ h c. sym ((==_iff i j).0 e) ∙ (==_iff i l).0 e'
          | inr e' ↦ rw (name_of, e, e') λ h c. absurd (not_used l (λ z. h (c ∙ z)) c)
        ]
        | inr e ↦ elim (Bool-cases (i == l)) [
          | inl e' ↦ rw (name_of, e, e') λ h c. absurd (not_used j h (sym c))
          | inr e' ↦ rw (name_of, e, e') (d.distinct j l)
        ]
      ];
    }

  set_name_invalid :
      (i : Ref) (given : Text) (w : World) → sanitize_name given ≡ none → (set_name i given w).0 ≡ w
  unfolding set_name deref ◌>>=◌
  set_name_invalid i given w e = rw e refl

  -- SetName, whether it renames the instance, refuses the name or panics on it, keeps the names
  -- proper: no two instances have the same name, and every name is registered and a DNS-1123 label.
  pub set_name-HasProperNames :
      (i : Ref) (given : Text) (w : World)
      → HasProperNames w
      → HasProperNames (set_name i given w).0
  set_name-HasProperNames i given w d = elim (Option-cases (sanitize_name given)) [
    | inl e ↦ rw (set_name_invalid i given w e) d
    | inr (name, e) ↦ elim (Bool-cases (has_instance_name name w.instance_names)) [
      | inl h ↦ rw (set_name_taken i given name w e h) d
      | inr h ↦
          rw (ap (λ p. p.0) (set_name_free i given name w e h))
            (renamed-HasProperNames i name w d h (sanitize_name-IsDnsLabel given name e))
    ]
  ]
