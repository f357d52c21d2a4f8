-- ===== src/K8s/Sanitize.antt =====
-- SanitizeName of pkg/k8s/utils.go. A panic is `none`.
pub mod Laws
pub mod Panic
use knuu.Prelude.{
  ℕ, ◌+◌, Bool, true, false, not, ◌&&◌, ◌||◌, Option, none, some, List, [], ◌∷◌, map, ltb, leb,
  ◌==◌, if◌then◌else◌, length, take,
}
use knuu.Prelude.Text.{Text, hyphen}

-- unicode.ToLower. Above ASCII only U+0130 and U+212A have an ASCII lower case; every other such
-- code point keeps a lower case above ASCII, whatever it is, and stands here for itself.
pub lower : ℕ → ℕ
lower c =
    if leb b'A' c && leb c b'Z'
    then c + 32
    else if c == 0x130
    then b'i'
    else if c == 0x212a
    then b'k'
    else c

-- The class [a-z0-9], and with the hyphen the class [a-z0-9-].
abbrev pub is_alnum : ℕ → Bool
is_alnum c = (leb b'a' c && leb c b'z') || (leb b'0' c && leb c b'9')

abbrev pub is_allowed : ℕ → Bool
is_allowed c = is_alnum c || c == hyphen

-- invalidCharsRegexp.ReplaceAllString(s, "-"): each longest run of other characters is one hyphen.
pub replace_invalid : Bool → Text → Text
replace_invalid in_run [] = []
replace_invalid in_run (c ∷ s) =
    let rest = replace_invalid (not (is_allowed c)) s in
    if is_allowed c then c ∷ rest else if in_run then rest else hyphen ∷ rest

-- strings.TrimLeft(s, "-") and strings.TrimRight(s, "-").
pub trim_left : Text → Text
trim_left [] = []
trim_left (c ∷ s) = let rest = trim_left s in if c == hyphen then rest else c ∷ s

abbrev pub trim_step : ℕ → Text → Text
trim_step c [] = if c == hyphen then [] else c ∷ []
trim_step c (d ∷ s) = c ∷ d ∷ s

pub trim_right : Text → Text
trim_right [] = []
trim_right (c ∷ s) = trim_step c (trim_right s)

abbrev pub max_name_length : ℕ
max_name_length = 63

pub cut : Text → Text
cut s = if ltb max_name_length (length s) then trim_right (take max_name_length s) else s

abbrev pub non_empty : Text → Option Text
non_empty [] = none
non_empty (c ∷ s) = some (c ∷ s)

unfoldable pub sanitize_name : Text → Option Text
unfolding lower replace_invalid trim_left trim_right cut
sanitize_name name =
    non_empty (cut (trim_right (trim_left (replace_invalid false (map lower name)))))
