-- ===== src/Instance/Network/Ports.antt =====
-- What a list of registered ports is: port numbers, each once.
use knuu.Prelude.{
  ℕ, ◌≤◌, ◌≡◌, refl, Bool, true, false, ◌||◌, List, [], ◌∷◌, ◌++◌, All, All-append, arith,
}
use knuu.Prelude.Int.{ℤ, pos, negsuc, eqb_ℤ}
use knuu.Instance.Network.{is_registered, in_range}

-- A port number: 1 to 65535.
pub record IsPort (p : ℤ) : Type 0 where
  pub number : ℕ
  pub is_number : p ≡ pos number
  pub lower : 1 ≤ number
  pub upper : number ≤ 65535

abbrev pub Distinct : List ℤ → Type 0
Distinct [] = Unit
Distinct (p ∷ ps) = (is_registered p ps ≡ false) × Distinct ps

abbrev pub IsPortList : List ℤ → Type 0
IsPortList ps = All IsPort ps × Distinct ps

not_negative : (n : ℕ) → in_range (negsuc n) ≡ true → ⊥
not_negative n h = ground arith

neither : (a b : Bool) → a || b ≡ false → (a ≡ false) × (b ≡ false)
neither true b h = cc
neither false b h = (refl, h)

none_of : (a b : Bool) → a ≡ false → b ≡ false → a || b ≡ false
none_of true b h k = cc
none_of false b h k = k

pub IsPort-in_range : (p : ℤ) → in_range p ≡ true → IsPort p
IsPort-in_range (pos n) h = record {
  number = n;
  is_number = refl;
  lower = ground arith;
  upper = ground arith;
}
IsPort-in_range (negsuc n) h = absurd (not_negative n h)

eqb_comm : (p r : ℤ) → eqb_ℤ p r ≡ eqb_ℤ r p
eqb_comm (pos n) (pos m) = ground arith
eqb_comm (pos n) (negsuc m) = ground arith
eqb_comm (negsuc n) (pos m) = ground arith
eqb_comm (negsuc n) (negsuc m) = ground arith

fresh_append :
    (p r : ℤ) (ps : List ℤ)
    → is_registered p ps ≡ false
    → eqb_ℤ r p ≡ false
    → is_registered p (ps ++ r ∷ []) ≡ false
fresh_append p r [] h k = none_of (eqb_ℤ r p) false k refl
fresh_append p r (x ∷ ps) h k =
    let (a, b) = neither (eqb_ℤ x p) (is_registered p ps) h in
    none_of (eqb_ℤ x p) (is_registered p (ps ++ r ∷ [])) a (fresh_append p r ps b k)

Distinct-append :
    (r : ℤ) (ps : List ℤ) → Distinct ps → is_registered r ps ≡ false → Distinct (ps ++ r ∷ [])
Distinct-append r [] d h = (refl, tt)
Distinct-append r (x ∷ ps) (d, ds) h =
    let (a, b) = neither (eqb_ℤ x r) (is_registered r ps) h in
    (fresh_append x r ps d (rw (eqb_comm r x) a), Distinct-append r ps ds b)

pub IsPortList-append :
    (r : ℤ) (ps : List ℤ)
    → IsPortList ps
    → in_range r ≡ true
    → is_registered r ps ≡ false
    → IsPortList (ps ++ r ∷ [])
IsPortList-append r ps (a, d) h k =
    (All-append IsPort ps (r ∷ []) a (IsPort-in_range r h, tt), Distinct-append r ps d k)
