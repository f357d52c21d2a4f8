-- ===== src/Prelude/Text.antt =====
-- A Go string as its code points. Every string that the program cuts by bytes is ASCII.
use Prim.Native.Nat.{ℕ, zero, suc, ◌+◌, ◌-◌, ◌*◌, ◌/◌, ◌%◌}
use Prim.Native.Char.{code}
use Prim.Native.String.{String}
use mathlib.Core.Path.{◌≡◌, refl}
use mathlib.Core.Logic.{◌↔◌}
use mathlib.Core.Bool.{Bool, true, false, ◌&&◌}
use mathlib.Core.List.{List, [], ◌∷◌, ◌++◌}
use native.Mathlib.Omega.{arith}
use mathlib.Core.Option.{Option, none, some}
use knuu.Prelude.Tests.{◌==◌, ltb, leb, if◌then◌else◌}
use knuu.Prelude.Lists.{any}
use knuu.Prelude.Maps.{Eq}

abbrev pub Text : Type 0
Text = List ℕ

abbrev pub codes : String → Text
codes String.[] = []
codes (String.◌∷◌ c s) = code c ∷ codes s

abbrev pub hyphen : ℕ
hyphen = b'-'

abbrev pub text_eq : Text → Text → Bool
text_eq [] [] = true
text_eq [] (d ∷ t) = false
text_eq (c ∷ s) [] = false
text_eq (c ∷ s) (d ∷ t) = c == d && text_eq s t

pub text_eq_iff : (s t : Text) → (text_eq s t ≡ true) ↔ (s ≡ t)
text_eq_iff [] [] = (λ _. refl, λ _. refl)
text_eq_iff [] (d ∷ t) = ground arith
text_eq_iff (c ∷ s) [] = ground arith
text_eq_iff (c ∷ s) (d ∷ t) = ground (arith, text_eq_iff s t)

instance abbrev pub text_has_eq : Eq Text
text_has_eq = record { beq = text_eq; beq_iff = text_eq_iff }

-- s == ""
abbrev pub is_empty : Text → Bool
is_empty [] = true
is_empty (c ∷ s) = false

-- strings.Split(s, sep) for a separator of one character, and strings.Contains.
abbrev pub first_part : ℕ → ℕ → List Text → List Text
first_part sep c [] = (c ∷ []) ∷ []
first_part sep c (p ∷ ps) = if c == sep then [] ∷ p ∷ ps else (c ∷ p) ∷ ps

unfoldable pub split : ℕ → Text → List Text
split sep [] = [] ∷ []
split sep (c ∷ s) = first_part sep c (split sep s)

abbrev pub contains : ℕ → Text → Bool
contains c s = any (λ d. d == c) s

-- strings.Join(parts, sep).
unfoldable pub join : Text → List Text → Text
join sep [] = []
join sep (p ∷ []) = p
join sep (p ∷ q ∷ ps) = p ++ (sep ++ join sep (q ∷ ps))

-- fmt's %d of a natural number and %o: the digits of `n` before `rest`; n + 1 rounds are enough.
digits_onto : ℕ → ℕ → ℕ → Text → Text
digits_onto base zero n rest = rest
digits_onto base (suc fuel) n rest = elim (ltb n base) [
  | true ↦ (b'0' + n) ∷ rest
  | false ↦ digits_onto base fuel (n / base) ((b'0' + n % base) ∷ rest)
]

unfoldable pub decimal : ℕ → Text
unfolding digits_onto
decimal n = digits_onto 10 (suc n) n []

unfoldable pub octal : ℕ → Text
unfolding digits_onto
octal n = digits_onto 8 (suc n) n []

-- The number that decimal digits stand for, after `acc`; none where another character stands.
abbrev pub is_digit : ℕ → Bool
is_digit c = leb b'0' c && leb c b'9'

unfoldable pub digits_value : ℕ → Text → Option ℕ
digits_value acc [] = some acc
digits_value acc (c ∷ s) =
    let rest = digits_value (acc * 10 + (c - b'0')) s in if is_digit c then rest else none
