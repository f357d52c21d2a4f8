-- ===== src/Preloader/Removing.antt =====
-- The images of a preloader are without duplicates, so that RemoveImage removes what it should.
use knuu.Prelude.{
  ℕ, zero, suc, ◌-◌, ◌≡◌, refl, sym, ap, ◌∙◌, inl, inr, Bool, true, false, if◌then◌else◌, leb,
  Option, none, some, List, [], ◌∷◌, take, length, All, Bool-cases, leb→le, arith,
}
use knuu.Prelude.Text.{Text, text_eq, text_eq_iff}
use knuu.Preloader.{holds_image, shift, remove_loop}

abbrev pub IsOther : Text → Text → Type 0
IsOther image x = text_eq x image ≡ false

abbrev pub HasNoDuplicates : List Text → Type 0
HasNoDuplicates [] = Unit
HasNoDuplicates (x ∷ xs) = All (IsOther x) xs × HasNoDuplicates xs

-- The images but for one.
abbrev pub without : Text → List Text → List Text
without image [] = []
without image (x ∷ xs) = let rest = without image xs in if text_eq x image then rest else x ∷ rest

abbrev pub onto : Text → Option (List Text) → Option (List Text)
onto x none = none
onto x (some xs) = some (x ∷ xs)

module _ (k i : ℕ) (image : Text) (array : List Text) (len : ℕ) where
  on_other :
      holds_image image array i ≡ false
      → remove_loop (suc k) i image array len ≡ remove_loop k (suc i) image array len
  unfolding remove_loop
  on_other h =
      ap
        (λ b. elim b [
          | false ↦ remove_loop k (suc i) image array len
          | true ↦ elim (leb (suc i) len) [
            | true ↦ remove_loop k (suc i) image (shift i (len - suc i) array) (len - 1)
            | false ↦ none
          ]
        ])
        h

  on_image :
      holds_image image array i ≡ true
      → remove_loop (suc k) i image array len ≡ (
          if leb (suc i) len
          then remove_loop k (suc i) image (shift i (len - suc i) array) (len - 1)
          else none)
  unfolding remove_loop
  on_image h =
      ap
        (λ b. elim b [
          | false ↦ remove_loop k (suc i) image array len
          | true ↦ elim (leb (suc i) len) [
            | true ↦ remove_loop k (suc i) image (shift i (len - suc i) array) (len - 1)
            | false ↦ none
          ]
        ])
        h
      ∙ by_leb (leb (suc i) len)
    where
      by_leb :
          (b : Bool)
          → elim b [
            | true ↦ remove_loop k (suc i) image (shift i (len - suc i) array) (len - 1)
            | false ↦ none
          ]
            ≡ (if b
                then remove_loop k (suc i) image (shift i (len - suc i) array) (len - 1)
                else none)
      by_leb true = refl
      by_leb false = refl

remove_rest :
    (k i : ℕ) (image x : Text) (array : List Text) (n : ℕ)
    → ((rest : List Text) (m : ℕ)
        → remove_loop k (suc (suc i)) image (x ∷ rest) (suc m)
          ≡ onto x (remove_loop k (suc i) image rest m))
    → (if leb (suc (suc i)) (suc n)
        then remove_loop k
            (suc (suc i))
            image
            (shift (suc i) (suc n - suc (suc i)) (x ∷ array))
            (suc n - 1)
        else none)
      ≡ onto x (
          if leb (suc i) n
          then remove_loop k (suc i) image (shift i (n - suc i) array) (n - 1)
          else none)
remove_rest k i image x array n ih =
    let e1 : leb (suc (suc i)) (suc n) ≡ leb (suc i) n = ground arith in
    let e2 : suc n - suc (suc i) ≡ n - suc i = omega arith in
    elim (Bool-cases (leb (suc i) n)) [
      | inl e ↦
          let e3 : suc n - 1 ≡ suc (n - 1) = omega (arith, leb→le (suc i) n e) in
          rw (e1, e, e2, e3) (ih (shift i (n - suc i) array) (n - 1))
      | inr e ↦ rw (e1, e) refl
    ]

-- A place further, in an array with one entry more in front, the loop does the same.
remove_loop-suc :
    (k i : ℕ) (image x : Text) (array : List Text) (len : ℕ)
    → remove_loop k (suc i) image (x ∷ array) (suc len) ≡ onto x (remove_loop k i image array len)
unfolding remove_loop
remove_loop-suc zero i image x array len = refl
remove_loop-suc (suc k) i image x array len = elim (Bool-cases (holds_image image array i)) [
  | inl e ↦
      on_image k (suc i) image (x ∷ array) (suc len) e
      ∙ (remove_rest k i image x array len (remove_loop-suc k (suc i) image x)
          ∙ sym (ap (onto x) (on_image k i image array len e)))
  | inr e ↦
      on_other k (suc i) image (x ∷ array) (suc len) e
      ∙ (remove_loop-suc k (suc i) image x array len
          ∙ sym (ap (onto x) (on_other k i image array len e)))
]

not_held :
    (image : Text) (array : List Text) (i : ℕ)
    → All (IsOther image) array
    → holds_image image array i ≡ false
not_held image [] i h = refl
not_held image (x ∷ xs) zero (h, hs) = h
not_held image (x ∷ xs) (suc i) (h, hs) = not_held image xs i hs

remove_loop_other :
    (k i : ℕ) (image : Text) (array : List Text) (len : ℕ)
    → All (IsOther image) array
    → remove_loop k i image array len ≡ some (take len array)
unfolding remove_loop
remove_loop_other zero i image array len h = refl
remove_loop_other (suc k) i image array len h =
    on_other k i image array len (not_held image array i h)
    ∙ remove_loop_other k (suc i) image array len h

shift-IsOther :
    (image : Text) (m : ℕ) (xs : List Text)
    → All (IsOther image) xs
    → All (IsOther image) (shift 0 m xs)
shift-IsOther image zero xs h = h
shift-IsOther image (suc m) [] h = h
shift-IsOther image (suc m) (x ∷ []) h = h
shift-IsOther image (suc m) (x ∷ y ∷ ys) (h, hs) = (hs.0, shift-IsOther image m (y ∷ ys) hs)

take-shift : (y : Text) (ys : List Text) → take (length ys) (shift 0 (length ys) (y ∷ ys)) ≡ ys
take-shift y [] = refl
take-shift y (z ∷ zs) = ap (λ t. z ∷ t) (take-shift z zs)

without_other : (image : Text) (xs : List Text) → All (IsOther image) xs → without image xs ≡ xs
without_other image [] h = refl
without_other image (x ∷ xs) (h, hs) = rw (h, without_other image xs hs) refl

-- The loop goes on behind the image that it removed from the front.
remove_first :
    (image : Text) (x : Text) (xs : List Text)
    → All (IsOther image) xs
    → remove_loop (length xs) 1 image (shift 0 (length xs) (x ∷ xs)) (length xs) ≡ some xs
unfolding remove_loop
remove_first image x [] h = refl
remove_first image x (y ∷ ys) (h, hs) =
    let rest = shift 0 (length ys) (y ∷ ys) in
    remove_loop-suc (suc (length ys)) 0 image y rest (length ys)
    ∙ (ap (onto y) (
          remove_loop_other (suc (length ys)) 0 image rest (length ys)
            (shift-IsOther image (length ys) (y ∷ ys) (h, hs)))
        ∙ ap (λ t. some (y ∷ t)) (take-shift y ys))

-- The loop, on an array with no duplicates.
pub remove_loop-without :
    (image : Text) (xs : List Text)
    → HasNoDuplicates xs
    → remove_loop (length xs) 0 image xs (length xs) ≡ some (without image xs)
unfolding remove_loop
remove_loop-without image [] h = refl
remove_loop-without image (x ∷ xs) (other, h) = elim (Bool-cases (text_eq x image)) [
  | inl e ↦
      let same : x ≡ image = (text_eq_iff x image).0 e in
      let rest : All (IsOther image) xs = rw (sym same) other in
      let n = length xs in
      let e1 : leb 1 (suc n) ≡ true = ground arith in
      let e2 : suc n - 1 ≡ n = omega arith in
      on_image n 0 image (x ∷ xs) (suc n) e
      ∙ rw (e1, e2, e, without_other image xs rest) (remove_first image x xs rest)
  | inr e ↦
      on_other (length xs) 0 image (x ∷ xs) (suc (length xs)) e
      ∙ (remove_loop-suc (length xs) 0 image x xs (length xs)
          ∙ (ap (onto x) (remove_loop-without image xs h) ∙ rw e refl))
]
