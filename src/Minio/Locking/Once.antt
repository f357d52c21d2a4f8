-- ===== src/Minio/Locking/Once.antt =====
-- Goroutines that share the mutex of a bucket make it at most once.
use knuu.Prelude.{
  ℕ, suc, ◌+◌, ◌≤◌, ◌≡◌, ◌≢◌, refl, sym, ap, subst, ◌∙◌, Bool, true, false, ◌==◌, none, some, inl,
  inr, arith, Bool-cases, ==_iff,
}
use knuu.Minio.Locking.{
  Place, idle, looked, wants, locked, leaving, seen, Shared, set, moved, Step, look, reuse,
  allocate, lock, ask, ask_fails, skip, make, make_fails, unlock, Reach, here, after, beginning,
  bit,
}

abbrev pub inside : Place → Bool
inside idle = false
inside (looked o) = false
inside (wants m) = false
inside (locked m) = true
inside (leaving m) = true
inside (seen m b) = true

-- What a goroutine knows where it is, of the mutex, of whether it is locked and of the bucket.
abbrev Knows : ℕ → Bool → Bool → Place → Type 0
Knows m h b idle = Unit
Knows m h b (looked o) = o ≡ some m
Knows m h b (wants k) = k ≡ m
Knows m h b (locked k) = (k ≡ m) × (h ≡ true)
Knows m h b (leaving k) = (k ≡ m) × (h ≡ true)
Knows m h b (seen k c) = (k ≡ m) × ((h ≡ true) × (c ≡ b))

record IsGuarded (m n : ℕ) (s : Shared) : Type 0 where
  shared : s.cell ≡ some m
  knows : (i : ℕ) → Knows m (s.held m) s.exists (s.place i)
  apart : (i j : ℕ) → inside (s.place i) ≡ true → inside (s.place j) ≡ true → i ≡ j
  count : s.made + n ≡ bit s.exists

-- A place from outside knows the same whatever the mutex and the bucket are.
Knows-of_outside :
    (m : ℕ) (h h' b b' : Bool) (p : Place) → inside p ≡ false → Knows m h b p → Knows m h' b' p
Knows-of_outside m h h' b b' idle e k = tt
Knows-of_outside m h h' b b' (looked o) e k = k
Knows-of_outside m h h' b b' (wants j) e k = k
Knows-of_outside m h h' b b' (locked j) e k = absurd cc
Knows-of_outside m h h' b b' (leaving j) e k = absurd cc
Knows-of_outside m h h' b b' (seen j c) e k = absurd cc

held_of_inside : (m : ℕ) (h b : Bool) (p : Place) → inside p ≡ true → Knows m h b p → h ≡ true
held_of_inside m h b idle e k = absurd cc
held_of_inside m h b (looked o) e k = absurd cc
held_of_inside m h b (wants j) e k = absurd cc
held_of_inside m h b (locked j) e k = k.1
held_of_inside m h b (leaving j) e k = k.1
held_of_inside m h b (seen j c) e k = k.1.0

-- A property of all places holds after a move if it holds of the new place and of those of the others.
all_moved :
    {A : Type 0} (P : ℕ → A → Type 0) (g : ℕ → A) (i : ℕ) (a : A)
    → P i a
    → ((j : ℕ) → i ≢ j → P j (g j))
    → (j : ℕ) → P j (set i a g j)
all_moved P g i a h k j = elim (Bool-cases (i == j)) [
  | inl e ↦ rw e (subst (λ l. P l a) ((==_iff i j).0 e) h)
  | inr e ↦ rw e (k j (λ z. let t = (==_iff i j).1 z in cc))
]

module _ (m n : ℕ) (s : Shared) (g : IsGuarded m n s) where
  -- The others are outside while one is inside.
  others_outside :
      (i j : ℕ) (h b : Bool) → inside (s.place i) ≡ true → i ≢ j → Knows m h b (s.place j)
  others_outside i j h b e d = elim (Bool-cases (inside (s.place j))) [
    | inl k ↦ absurd (d (g.apart i j e k))
    | inr k ↦ Knows-of_outside m (s.held m) h s.exists b (s.place j) k (g.knows j)
  ]

  keeps_lem :
      (i : ℕ) (p : Place) (held : ℕ → Bool) (exists : Bool) (made : ℕ)
      → Knows m (held m) exists p
      → ((j : ℕ) → i ≢ j → Knows m (held m) exists (s.place j))
      → ((j : ℕ) → inside p ≡ true → inside (s.place j) ≡ true → i ≡ j)
      → made + n ≡ bit exists
      → IsGuarded m n
          (record s { place = set i p s.place; held = held; exists = exists; made = made })
  keeps_lem i p held exists made new old alone count = record {
    shared = g.shared;
    knows = all_moved (λ j q. Knows m (held m) exists q) s.place i p new old;
    apart =
        all_moved (λ j q. (k : ℕ) → inside q ≡ true → inside (set i p s.place k) ≡ true → j ≡ k)
          s.place i p
          (λ k e.
            all_moved (λ l q. inside q ≡ true → i ≡ l) s.place i p (λ e'. refl)
              (λ l d e'. alone l e e') k)
          (λ j d k e.
            all_moved (λ l q. inside q ≡ true → j ≡ l) s.place i p (λ e'. sym (alone j e' e))
              (λ l d' e'. g.apart j l e e') k);
    count = count;
  }

  -- A move that leaves the mutexes and the bucket as they are.
  steps_lem :
      (i : ℕ) (p : Place)
      → Knows m (s.held m) s.exists p
      → (inside p ≡ true → inside (s.place i) ≡ true)
      → IsGuarded m n (moved i p s)
  steps_lem i p new inner =
      keeps_lem i p s.held s.exists s.made new (λ j d. g.knows j)
        (λ j e e'. g.apart i j (inner e) e') g.count

  known : (i : ℕ) (p : Place) → s.place i ≡ p → Knows m (s.held m) s.exists p
  known i p e = subst (λ q. Knows m (s.held m) s.exists q) e (g.knows i)

  inner_lem : (i : ℕ) (p : Place) → s.place i ≡ p → inside p ≡ true → inside (s.place i) ≡ true
  inner_lem i p e h = ap inside e ∙ h

  lock_lem :
      (i k : ℕ)
      → s.place i ≡ wants k
      → s.held k ≡ false
      → IsGuarded m n (moved i (locked k) (record s { held = set k true s.held }))
  lock_lem i k e h =
      let same : k ≡ m = known i (wants k) e in
      let free : s.held m ≡ false = subst (λ l. s.held l ≡ false) same h in
      let now : set k true s.held m ≡ true = rw ((==_iff k m).1 same) refl in
      let nobody : (j : ℕ) → inside (s.place j) ≡ true → s.held m ≡ true =
        λ j e'. held_of_inside m (s.held m) s.exists (s.place j) e' (g.knows j) in
      keeps_lem i (locked k) (set k true s.held) s.exists s.made (same, now)
        (λ j d. elim (Bool-cases (inside (s.place j))) [
          | inl e' ↦ let busy = nobody j e' in absurd cc
          | inr e' ↦
              Knows-of_outside m (s.held m) (set k true s.held m) s.exists s.exists (s.place j) e'
                (g.knows j)
        ])
        (λ j e' e''. let busy = nobody j e'' in absurd cc) g.count

  step-IsGuarded : (t : Shared) → Step s t → IsGuarded m n t
  step-IsGuarded t (look i e h) = rw h (steps_lem i (looked s.cell) g.shared (λ e'. absurd cc))
  step-IsGuarded t (reuse i k e h) =
      let o : some k ≡ some m = known i (looked (some k)) e in
      let same : k ≡ m = cc in rw h (steps_lem i (wants k) same (λ e'. absurd cc))
  step-IsGuarded t (allocate i e h) = let o : none ≡ some m = known i (looked none) e in absurd cc
  step-IsGuarded t (lock i k e e' h) = rw h (lock_lem i k e e')
  step-IsGuarded t (ask i k e h) =
      let (same, held) = known i (locked k) e in
      rw h (steps_lem i (seen k s.exists) (same, (held, refl)) (inner_lem i (locked k) e))
  step-IsGuarded t (ask_fails i k e h) =
      rw h (steps_lem i (leaving k) (known i (locked k) e) (inner_lem i (locked k) e))
  step-IsGuarded t (skip i k e h) =
      let (same, (held, b)) = known i (seen k true) e in
      rw h (steps_lem i (leaving k) (same, held) (inner_lem i (seen k true) e))
  step-IsGuarded t (make i k e h) =
      let (same, (held, b)) = known i (seen k false) e in
      let inner = inner_lem i (seen k false) e refl in
      let none_yet : s.made + n ≡ 0 = g.count ∙ ap bit (sym b) in
      rw h (
        keeps_lem i (leaving k) s.held true (suc s.made) (same, held)
          (λ j d. others_outside i j (s.held m) true inner d) (λ j e' e''. g.apart i j inner e'')
          (omega (arith, none_yet)))
  step-IsGuarded t (make_fails i k e h) =
      let (same, (held, b)) = known i (seen k false) e in
      rw h (steps_lem i (leaving k) (same, held) (inner_lem i (seen k false) e))
  step-IsGuarded t (unlock i k e h) =
      let inner = inner_lem i (leaving k) e refl in
      rw h (
        keeps_lem i idle (set k false s.held) s.exists s.made tt
          (λ j d. others_outside i j (set k false s.held m) s.exists inner d)
          (λ j e' e''. absurd cc) g.count)

Reach-IsGuarded : (m n : ℕ) (s t : Shared) → Reach s t → IsGuarded m n s → IsGuarded m n t
Reach-IsGuarded m n s t here g = g
Reach-IsGuarded m n s t (after {t = u} r h) g =
    step-IsGuarded m n u (Reach-IsGuarded m n s u r g) t h

beginning-IsGuarded :
    (m fresh : ℕ) (exists : Bool) → IsGuarded m (bit exists) (beginning (some m) fresh exists)
beginning-IsGuarded m fresh exists = record {
  shared = refl;
  knows = λ i. tt;
  apart = λ i j e e'. absurd cc;
  count = omega arith;
}

at_most : (exists now : Bool) (made : ℕ) → made + bit exists ≡ bit now → made + bit exists ≤ 1
at_most exists true made h = omega (arith, h)
at_most exists false made h = omega (arith, h)

-- Where muMap has the mutex of the bucket, goroutines that call createBucketIfNotExists, any number of
-- them in any order, are never inside together, and the bucket is made at most once, and never if it is
-- there from the start.
pub made_once :
    (m fresh : ℕ) (exists : Bool) (t : Shared)
    → Reach (beginning (some m) fresh exists) t
    → (t.made + bit exists ≤ 1)
      × ((i j : ℕ) → inside (t.place i) ≡ true → inside (t.place j) ≡ true → i ≡ j)
made_once m fresh exists t r =
    let g =
      Reach-IsGuarded m (bit exists) (beginning (some m) fresh exists) t r
        (beginning-IsGuarded m fresh exists) in
    (at_most exists t.exists t.made g.count, g.apart)
