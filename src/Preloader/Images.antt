-- ===== src/Preloader/Images.antt =====
-- The images of a preloader, whatever is added to them and removed.
use knuu.Prelude.{
  ◌≡◌, refl, ap, ◌∙◌, inl, inr, false, if◌then◌else◌, List, [], ◌∷◌, ◌++◌, any, All, Bool-cases,
  arith,
}
use knuu.Prelude.Text.{Text, text_eq, text_eq_iff}
use knuu.Action.{Action, modify, ◌>>=◌}
use knuu.Host.{Foreign}
use knuu.K8s.Validate.{Validation}
use knuu.K8s.Cluster.{Client}
use knuu.Preloader.{Preloader, Held, set_images, add_image, removed, remove_image, empty_images}
use knuu.Preloader.Removing.{IsOther, HasNoDuplicates, without, remove_loop-without}

without-All :
    (image x : Text) (xs : List Text) → All (IsOther x) xs → All (IsOther x) (without image xs)
without-All image x [] h = tt
without-All image x (y ∷ ys) (h, hs) = elim (Bool-cases (text_eq y image)) [
  | inl e ↦ rw e (without-All image x ys hs)
  | inr e ↦ rw e (h, without-All image x ys hs)
]

without-HasNoDuplicates :
    (image : Text) (xs : List Text) → HasNoDuplicates xs → HasNoDuplicates (without image xs)
without-HasNoDuplicates image [] h = tt
without-HasNoDuplicates image (x ∷ xs) (h, hs) = elim (Bool-cases (text_eq x image)) [
  | inl e ↦ rw e (without-HasNoDuplicates image xs hs)
  | inr e ↦ rw e (without-All image x xs h, without-HasNoDuplicates image xs hs)
]

differs : (x y : Text) → text_eq x y ≡ false → text_eq y x ≡ false
differs x y h = ground (arith, text_eq_iff x y, text_eq_iff y x)

append-All :
    (image x : Text) (xs : List Text)
    → All (IsOther x) xs
    → IsOther x image
    → All (IsOther x) (xs ++ image ∷ [])
append-All image x [] h e = (e, tt)
append-All image x (y ∷ ys) (h, hs) e = (h, append-All image x ys hs e)

append-HasNoDuplicates :
    (image : Text) (xs : List Text)
    → any (λ v. text_eq v image) xs ≡ false
    → HasNoDuplicates xs
    → HasNoDuplicates (xs ++ image ∷ [])
append-HasNoDuplicates image [] e h = (tt, tt)
append-HasNoDuplicates image (x ∷ xs) e (h, hs) =
    let here : text_eq x image ≡ false = ground arith in
    let there : any (λ v. text_eq v image) xs ≡ false = ground arith in
    (append-All image x xs h (differs x image here), append-HasNoDuplicates image xs there hs)

pub data Change : Type 0 where
  add remove : Text → Change
  clear : Change

-- The images after a change.
abbrev pub images_after : Change → List Text → List Text
images_after (add image) images =
    if any (λ v. text_eq v image) images then images else images ++ image ∷ []
images_after (remove image) images = without image images
images_after clear images = []

images_after-HasNoDuplicates :
    (change : Change) (images : List Text)
    → HasNoDuplicates images
    → HasNoDuplicates (images_after change images)
images_after-HasNoDuplicates (add image) images h =
    elim (Bool-cases (any (λ v. text_eq v image) images)) [
      | inl e ↦ rw e h
      | inr e ↦ rw e (append-HasNoDuplicates image images e h)
    ]
images_after-HasNoDuplicates (remove image) images h = without-HasNoDuplicates image images h
images_after-HasNoDuplicates clear images h = tt

module _ ⦃f : Foreign⦄ ⦃v : Validation⦄ (c : Client) where
  abbrev pub run_change : Change → Action Held (Unit {0})
  run_change (add image) = add_image c image
  run_change (remove image) = remove_image c image
  run_change clear = empty_images c

  abbrev pub images_of : Held → List Text
  images_of (p, x) = p.images

  set_images-images : (images : List Text) (h : Held) → images_of (set_images c images h).0 ≡ images
  unfolding modify ◌>>=◌
  set_images-images images h = refl

  run_change-images_after :
      (change : Change) (p : Preloader) (x : f.Outside)
      → HasNoDuplicates p.images
      → images_of (run_change change (p, x)).0 ≡ images_after change p.images
  unfolding add_image remove_image empty_images
  run_change-images_after (add image) p x h =
      elim (Bool-cases (any (λ v. text_eq v image) p.images)) [
        | inl e ↦ rw e refl
        | inr e ↦ rw e (set_images-images (p.images ++ image ∷ []) (p, x))
      ]
  run_change-images_after (remove image) p x h =
      ap (λ o. images_of (removed c o (p, x)).0) (remove_loop-without image p.images h)
      ∙ set_images-images (without image p.images) (p, x)
  run_change-images_after clear p x h = set_images-images [] (p, x)

  -- A preloader whose images have no duplicates has, after an image is added, removed or all are
  -- dropped, whatever the cluster answers, the images that it should have, and no duplicates.
  pub run_change-HasNoDuplicates :
      (change : Change) (p : Preloader) (x : f.Outside)
      → HasNoDuplicates p.images
      → (images_of (run_change change (p, x)).0 ≡ images_after change p.images)
        × HasNoDuplicates (images_of (run_change change (p, x)).0)
  run_change-HasNoDuplicates change p x h =
      let e = run_change-images_after change p x h in
      (e, rw e (images_after-HasNoDuplicates change p.images h))
