-- ===== src/K8s/Sanitize/Panic.antt =====
-- When SanitizeName panics.
use knuu.Prelude.{
  ℕ, ◌≡◌, refl, ◌↔◌, inl, inr, Bool, false, true, not, none, [], ◌∷◌, map, arith, ◌==◌, ltb,
  Bool-cases, length, take, All,
}
use knuu.Prelude.Text.{Text, hyphen}
use knuu.K8s.Sanitize.{
  lower, is_alnum, is_allowed, replace_invalid, trim_left, trim_right, cut, max_name_length,
  non_empty, sanitize_name,
}
use knuu.K8s.Sanitize.Laws.{
  StartsWell, trim_left-StartsWell, trim_right-head, trim_right-StartsWell,
}

abbrev IsHyphen : ℕ → Type 0
IsHyphen c = (c == hyphen) ≡ true

-- The character leaves nothing but hyphens in a sanitized name.
abbrev pub LeavesNothing : ℕ → Type 0
LeavesNothing c = is_alnum (lower c) ≡ false

hyphens_of_replace :
    (b : Bool) (s : Text) → All IsHyphen (replace_invalid b (map lower s)) → All LeavesNothing s
unfolding replace_invalid
hyphens_of_replace b [] h = tt
hyphens_of_replace b (c ∷ s) h = ground (arith, hyphens_of_replace (not (is_allowed (lower c))) s)

replace-hyphens :
    (b : Bool) (s : Text) → All LeavesNothing s → All IsHyphen (replace_invalid b (map lower s))
unfolding replace_invalid
replace-hyphens b [] h = tt
replace-hyphens b (c ∷ s) (p, h) = ground (arith, replace-hyphens (not (is_allowed (lower c))) s h)

hyphens_of_trim_left : (s : Text) → trim_left s ≡ [] → All IsHyphen s
unfolding trim_left
hyphens_of_trim_left [] h = tt
hyphens_of_trim_left (c ∷ s) h = ground (arith, hyphens_of_trim_left s)

trim_left-hyphens : (s : Text) → All IsHyphen s → trim_left s ≡ []
unfolding trim_left
trim_left-hyphens [] h = refl
trim_left-hyphens (c ∷ s) (p, h) = rw p (trim_left-hyphens s h)

nil_of_trim_right : (s : Text) → StartsWell s → trim_right s ≡ [] → s ≡ []
nil_of_trim_right [] w h = refl
nil_of_trim_right (c ∷ s) w h = let (t, e) = trim_right-head c s w in cc

nil_of_cut : (s : Text) → StartsWell s → non_empty (cut s) ≡ none → s ≡ []
unfolding cut
nil_of_cut [] w h = refl
nil_of_cut (c ∷ s) w h = elim (Bool-cases (ltb max_name_length (length (c ∷ s)))) [
  | inl e ↦ let (t, e') = trim_right-head c (take 62 s) w in cc (rw (e, e') at h)
  | inr e ↦ cc (rw e at h)
]

trimmed_nil :
    (name : Text) → All LeavesNothing name → trim_left (replace_invalid false (map lower name)) ≡ []
trimmed_nil name h = trim_left-hyphens _ (replace-hyphens false name h)

-- SanitizeName panics exactly on a name with no letter of a to z, of either case, and no digit:
-- its characters all become hyphens.
pub sanitize_name-none_iff : (name : Text) → (sanitize_name name ≡ none) ↔ All LeavesNothing name
unfolding sanitize_name
sanitize_name-none_iff name =
    let t = trim_left (replace_invalid false (map lower name)) in
    let w = trim_left-StartsWell (replace_invalid false (map lower name)) in
    (
      λ h. hyphens_of_replace false name (
          hyphens_of_trim_left _
            (nil_of_trim_right t w (nil_of_cut _ (trim_right-StartsWell t w) h))),
      λ h. rw (trimmed_nil name h) refl,
    )
