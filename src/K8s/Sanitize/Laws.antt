-- ===== src/K8s/Sanitize/Laws.antt =====
-- Sanitized names are DNS-1123 labels.
use knuu.Prelude.{
  ℕ, suc, ◌≤◌, ◌≡◌, refl, inl, inr, Bool, true, false, not, some, [], ◌∷◌, map, arith, ◌==◌, ltb,
  Bool-cases, length, take, length-take-le, All, All-take, ap,
}
use knuu.Prelude.Text.{Text, hyphen}
use knuu.K8s.Sanitize.{
  lower, is_allowed, replace_invalid, trim_left, trim_step, trim_right, cut, max_name_length,
  non_empty, sanitize_name,
}

abbrev IsAllowed : ℕ → Type 0
IsAllowed c = is_allowed c ≡ true

-- No hyphen at the front; none at the back.
abbrev pub StartsWell : Text → Type 0
StartsWell [] = Unit
StartsWell (c ∷ s) = (c == hyphen) ≡ false

abbrev pub EndsWell : Text → Type 0
EndsWell [] = Unit
EndsWell (c ∷ []) = (c == hyphen) ≡ false
EndsWell (c ∷ d ∷ s) = EndsWell (d ∷ s)

-- An RFC 1123 label: 1 to 63 characters of [a-z0-9-], with no hyphen at either end.
pub record IsDnsLabel (s : Text) : Type 0 where
  pub some_char : 1 ≤ length s
  pub fits : length s ≤ 63
  pub allowed : All (λ c. is_allowed c ≡ true) s
  pub starts : StartsWell s
  pub ends : EndsWell s

replace_invalid-All : (b : Bool) (s : Text) → All IsAllowed (replace_invalid b s)
unfolding replace_invalid
replace_invalid-All b [] = tt
replace_invalid-All b (c ∷ s) = ground (arith, replace_invalid-All (not (is_allowed c)) s)

trim_left-All : (s : Text) → All IsAllowed s → All IsAllowed (trim_left s)
unfolding trim_left
trim_left-All [] h = tt
trim_left-All (c ∷ s) (p, h) = ground (arith, trim_left-All s h)

pub trim_left-StartsWell : (s : Text) → StartsWell (trim_left s)
unfolding trim_left
trim_left-StartsWell [] = tt
trim_left-StartsWell (c ∷ s) = elim (Bool-cases (c == hyphen)) [
  | inl e ↦ rw e (trim_left-StartsWell s)
  | inr e ↦ rw e e
]

trim_step-All : (c : ℕ) (s : Text) → IsAllowed c → All IsAllowed s → All IsAllowed (trim_step c s)
trim_step-All c [] p h = ground arith
trim_step-All c (d ∷ s) p h = (p, h)

trim_right-All : (s : Text) → All IsAllowed s → All IsAllowed (trim_right s)
unfolding trim_right
trim_right-All [] h = tt
trim_right-All (c ∷ s) (p, h) = trim_step-All c (trim_right s) p (trim_right-All s h)

trim_step-EndsWell : (c : ℕ) (s : Text) → EndsWell s → EndsWell (trim_step c s)
trim_step-EndsWell c [] h = elim (Bool-cases (c == hyphen)) [ inl e ↦ rw e tt | inr e ↦ rw e e ]
trim_step-EndsWell c (d ∷ s) h = h

trim_right-EndsWell : (s : Text) → EndsWell (trim_right s)
unfolding trim_right
trim_right-EndsWell [] = tt
trim_right-EndsWell (c ∷ s) = trim_step-EndsWell c (trim_right s) (trim_right-EndsWell s)

trim_step-head : (c : ℕ) (s : Text) → (c == hyphen) ≡ false → (t : Text) × (trim_step c s ≡ c ∷ t)
trim_step-head c [] h = ([], rw h)
trim_step-head c (d ∷ s) h = (d ∷ s, refl)

-- A text with no hyphen at the front keeps its first character.
pub trim_right-head :
    (c : ℕ) (s : Text) → StartsWell (c ∷ s) → (t : Text) × (trim_right (c ∷ s) ≡ c ∷ t)
unfolding trim_right
trim_right-head c s h = trim_step-head c (trim_right s) h

pub trim_right-StartsWell : (s : Text) → StartsWell s → StartsWell (trim_right s)
unfolding trim_right
trim_right-StartsWell [] h = tt
trim_right-StartsWell (c ∷ s) h = let (t, e) = trim_right-head c s h in rw e h

length-trim_step-le : (c : ℕ) (s : Text) → length (trim_step c s) ≤ suc (length s)
length-trim_step-le c [] = ground arith
length-trim_step-le c (d ∷ s) = omega arith

length-trim_right-le : (s : Text) → length (trim_right s) ≤ length s
unfolding trim_right
length-trim_right-le [] = omega arith
length-trim_right-le (c ∷ s) =
    omega (arith, length-trim_step-le c (trim_right s), length-trim_right-le s)

-- What holds of a text before the cut, except for its length.
record IsTrimmed (s : Text) : Type 0 where
  allowed : All IsAllowed s
  starts : StartsWell s
  ends : EndsWell s

cut-IsTrimmed : (s : Text) → IsTrimmed s → IsTrimmed (cut s)
unfolding cut
cut-IsTrimmed s t = elim (Bool-cases (ltb max_name_length (length s))) [
  | inl e ↦ rw e (record {
    allowed = trim_right-All _ (All-take IsAllowed 63 s t.allowed);
    starts = trim_right-StartsWell _ (take-StartsWell s t.starts);
    ends = trim_right-EndsWell _;
  })
  | inr e ↦ rw e t
]
  where
    take-StartsWell : (s : Text) → StartsWell s → StartsWell (take max_name_length s)
    take-StartsWell [] h = tt
    take-StartsWell (c ∷ s) h = h

not_ltb : (n : ℕ) → ltb max_name_length n ≡ false → n ≤ 63
not_ltb n h = ground arith

length-cut-le : (s : Text) → length (cut s) ≤ 63
unfolding cut
length-cut-le s = elim (Bool-cases (ltb max_name_length (length s))) [
  | inl e ↦ rw e (omega (arith, length-trim_right-le (take 63 s), length-take-le 63 s))
  | inr e ↦ rw e (not_ltb (length s) e)
]

non_empty_lem : (s r : Text) → non_empty s ≡ some r → (s ≡ r) × (1 ≤ length r)
non_empty_lem [] r h = cc
non_empty_lem (c ∷ s) r h = let e : c ∷ s ≡ r = cc in (e, rw (← e) (omega arith))

trim-IsTrimmed :
    (s : Text) → IsTrimmed (trim_right (trim_left (replace_invalid false (map lower s))))
trim-IsTrimmed s = record {
  allowed = trim_right-All _ (trim_left-All _ (replace_invalid-All false (map lower s)));
  starts = trim_right-StartsWell _ (trim_left-StartsWell (replace_invalid false (map lower s)));
  ends = trim_right-EndsWell _;
}

IsDnsLabel-of_trimmed : {s : Text} → IsTrimmed s → 1 ≤ length s → length s ≤ 63 → IsDnsLabel s
IsDnsLabel-of_trimmed t some_char fits = record {
  some_char = some_char;
  fits = fits;
  allowed = t.allowed;
  starts = t.starts;
  ends = t.ends;
}

-- Whatever the given name, a sanitized name that is returned is a DNS-1123 label.
pub sanitize_name-IsDnsLabel : (name r : Text) → sanitize_name name ≡ some r → IsDnsLabel r
unfolding sanitize_name
sanitize_name-IsDnsLabel name r h =
    let s = trim_right (trim_left (replace_invalid false (map lower name))) in
    let (e, p) = non_empty_lem (cut s) r h in
    IsDnsLabel-of_trimmed (rw e at (cut-IsTrimmed s (trim-IsTrimmed name))) p
      (rw e at (length-cut-le s))

map-lower_of_All : (s : Text) → All IsAllowed s → map lower s ≡ s
map-lower_of_All [] h = refl
map-lower_of_All (c ∷ s) (p, h) = rw (lower_of_allowed c p, map-lower_of_All s h)
  where
    lower_of_allowed : (c : ℕ) → IsAllowed c → lower c ≡ c
    lower_of_allowed c p = unfold lower in ground arith

replace_invalid_of_All : (b : Bool) (s : Text) → All IsAllowed s → replace_invalid b s ≡ s
unfolding replace_invalid
replace_invalid_of_All b [] h = refl
replace_invalid_of_All b (c ∷ s) (p, h) = rw (p, replace_invalid_of_All false s h)

trim_left_of_StartsWell : (s : Text) → StartsWell s → trim_left s ≡ s
unfolding trim_left
trim_left_of_StartsWell [] h = refl
trim_left_of_StartsWell (c ∷ s) h = rw h

trim_right_of_EndsWell : (s : Text) → EndsWell s → trim_right s ≡ s
unfolding trim_right
trim_right_of_EndsWell [] h = refl
trim_right_of_EndsWell (c ∷ []) h = rw h
trim_right_of_EndsWell (c ∷ d ∷ s) h = ap (trim_step c) (trim_right_of_EndsWell (d ∷ s) h)

cut_of_le : (s : Text) → length s ≤ 63 → cut s ≡ s
unfolding cut
cut_of_le s h = let e : ltb max_name_length (length s) ≡ false = ground arith in rw e

non_empty_of_le : (s : Text) → 1 ≤ length s → non_empty s ≡ some s
non_empty_of_le [] h = absurd (omega arith)
non_empty_of_le (c ∷ s) h = refl

-- A DNS-1123 label is its own sanitized name.
pub sanitize_name_of_IsDnsLabel : (s : Text) → IsDnsLabel s → sanitize_name s ≡ some s
unfolding sanitize_name
sanitize_name_of_IsDnsLabel s l =
    rw (map-lower_of_All s l.allowed, replace_invalid_of_All false s l.allowed)
      (rw (trim_left_of_StartsWell s l.starts, trim_right_of_EndsWell s l.ends)
        (rw (cut_of_le s l.fits) (non_empty_of_le s l.some_char)))

-- Sanitizing a second time changes nothing.
pub sanitize_name_idem : (name r : Text) → sanitize_name name ≡ some r → sanitize_name r ≡ some r
sanitize_name_idem name r h = sanitize_name_of_IsDnsLabel r (sanitize_name-IsDnsLabel name r h)
