-- ===== src/Prelude/Strings.antt =====
-- The functions of Go's package strings, and fmt's %d, on texts.
use Prim.Native.Nat.{ℕ, suc}
use mathlib.Core.Path.{◌≡◌, refl, ap}
use mathlib.Core.Bool.{Bool, true, false, ◌&&◌}
use mathlib.Core.List.{List, [], ◌∷◌, ◌++◌}
use mathlib.Core.Logic.{inl, inr}
use native.Mathlib.Omega.{arith}
use knuu.Prelude.Tests.{◌==◌, if◌then◌else◌, Bool-cases}
use knuu.Prelude.Lists.{length, length-append}
use knuu.Prelude.Text.{Text, text_eq, text_eq_iff, decimal}
use knuu.Prelude.Int.{ℤ, pos, negsuc}

-- strings.HasPrefix(s, p) and strings.TrimPrefix(s, p).
abbrev pub has_prefix : Text → Text → Bool
has_prefix [] s = true
has_prefix (d ∷ p) [] = false
has_prefix (d ∷ p) (c ∷ s) = d == c && has_prefix p s

abbrev pub drop_text : Text → Text → Text
drop_text [] s = s
drop_text (d ∷ p) [] = []
drop_text (d ∷ p) (c ∷ s) = drop_text p s

abbrev pub trim_prefix : Text → Text → Text
trim_prefix p s = if has_prefix p s then drop_text p s else s

-- strings.TrimSuffix(s, p).
unfoldable pub trim_suffix : Text → Text → Text
trim_suffix p [] = []
trim_suffix p (c ∷ s) = let rest = trim_suffix p s in if text_eq (c ∷ s) p then [] else c ∷ rest

-- strings.TrimLeft(s, "d"), strings.TrimRight(s, "d") and strings.Trim(s, "d").
unfoldable pub trim_left : ℕ → Text → Text
trim_left d [] = []
trim_left d (c ∷ s) = let rest = trim_left d s in if c == d then rest else c ∷ s

abbrev pub trim_step : ℕ → ℕ → Text → Text
trim_step d c [] = if c == d then [] else c ∷ []
trim_step d c (e ∷ s) = c ∷ e ∷ s

unfoldable pub trim_right : ℕ → Text → Text
trim_right d [] = []
trim_right d (c ∷ s) = trim_step d c (trim_right d s)

abbrev pub trim : ℕ → Text → Text
trim d s = trim_right d (trim_left d s)

-- strings.Join(parts, "").
abbrev pub concat : List Text → Text
concat [] = []
concat (t ∷ ts) = t ++ concat ts

-- %d of an int.
abbrev pub show_int : ℤ → Text
show_int (pos n) = decimal n
show_int (negsuc n) = b'-' ∷ decimal (suc n)

pub has_prefix-append : (p s : Text) → has_prefix p (p ++ s) ≡ true
has_prefix-append [] s = refl
has_prefix-append (d ∷ p) s = ground (arith, has_prefix-append p s)

pub drop_text-append : (p s : Text) → drop_text p (p ++ s) ≡ s
drop_text-append [] s = refl
drop_text-append (d ∷ p) s = drop_text-append p s

pub trim_prefix-append : (p s : Text) → trim_prefix p (p ++ s) ≡ s
trim_prefix-append p s = rw (has_prefix-append p s) (drop_text-append p s)

longer_differs : (c : ℕ) (s p : Text) → text_eq ((c ∷ s) ++ p) p ≡ false
longer_differs c s p = elim (Bool-cases (text_eq ((c ∷ s) ++ p) p)) [
  | inl e ↦
      let h : (c ∷ s) ++ p ≡ p = (text_eq_iff ((c ∷ s) ++ p) p).0 e in
      let l : length ((c ∷ s) ++ p) ≡ length p = ap length h in
      absurd (omega (arith, l, length-append (c ∷ s) p))
  | inr e ↦ e
]

trim_suffix_self : (p : Text) → trim_suffix p p ≡ []
unfolding trim_suffix
trim_suffix_self [] = refl
trim_suffix_self (c ∷ p) = rw ((text_eq_iff (c ∷ p) (c ∷ p)).1 refl) refl

pub trim_suffix-append : (p s : Text) → trim_suffix p (s ++ p) ≡ s
unfolding trim_suffix
trim_suffix-append p [] = trim_suffix_self p
trim_suffix-append p (c ∷ s) = rw (longer_differs c s p) (ap (λ t. c ∷ t) (trim_suffix-append p s))
