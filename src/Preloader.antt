-- ===== src/Preloader.antt =====
-- preloader.go of pkg/preloader: the images that a daemon set keeps on the nodes of the cluster.
pub mod Removing
pub mod Images
use knuu.Prelude.{
  ℕ, zero, suc, ◌-◌, Bool, true, false, if◌then◌else◌, leb, Option, none, some, List, [], ◌∷◌, ◌++◌,
  take, length, any,
}
use knuu.Prelude.Text.{Text, codes, text_eq, decimal}
use knuu.Errors.{Result, ok, err, panic, raised, preloader_code}
use knuu.Errors.Codes.{preloader_name_already_exists}
use knuu.Action.{Action, pure, raise, crash, modify, ◌>>=◌, ◌>>◌}
use knuu.Host.{Foreign, Call}
use knuu.K8s.Types.{Labels}
use knuu.K8s.Objects.{Container}
use knuu.K8s.Sanitize.{sanitize_name}
use knuu.K8s.Validate.{Validation}
use knuu.K8s.Cluster.{Client}
use knuu.K8s.Cluster.Access.{ignore}
use knuu.K8s.Cluster.Daemons.{
  daemon_set_exists, delete_daemon_set, create_daemon_set, update_daemon_set,
}

-- With the scope and the start time of the system's dependencies.
pub record Preloader : Type 0 where
  pub name : Text
  pub images : List Text
  pub scope : Text
  pub start_time : Text

-- The names of the instances, and the preloader with its name among them.
abbrev pub named_preloader : List Text → Text → Text → Option Text → Result (List Text × Preloader)
named_preloader names scope start_time none = panic
named_preloader names scope start_time (some name) =
    if any (text_eq name) names
    then err (raised (preloader_code preloader_name_already_exists))
    else ok
        (name ∷ names, record { name = name; images = []; scope = scope; start_time = start_time })

unfoldable pub new : List Text → Text → Text → Text → Result (List Text × Preloader)
new names scope start_time name = named_preloader names scope start_time (sanitize_name name)

-- Whether the entry of an array at a place is the image.
abbrev pub holds_image : Text → List Text → ℕ → Bool
holds_image image [] i = false
holds_image image (x ∷ xs) zero = text_eq x image
holds_image image (x ∷ xs) (suc i) = holds_image image xs i

-- `append(images[:i], images[i+1:]...)` copies the `m` entries behind place `i` one place down, in the
-- array that the loop still reads; the last entry stays where it was.
abbrev pub shift : ℕ → ℕ → List Text → List Text
shift zero zero xs = xs
shift zero (suc m) (x ∷ y ∷ ys) = y ∷ shift zero m (y ∷ ys)
shift zero (suc m) (x ∷ []) = x ∷ []
shift zero (suc m) [] = []
shift (suc i) m (x ∷ xs) = x ∷ shift i m xs
shift (suc i) m [] = []

-- The loop of RemoveImage, with the rounds left, the place, the array and the length of the slice; it
-- ranges over the slice as it was. `none` is the panic of images[i+1:] beyond the length.
unfoldable pub remove_loop : ℕ → ℕ → Text → List Text → ℕ → Option (List Text)
remove_loop zero i image array len = some (take len array)
remove_loop (suc rounds) i image array len = elim (holds_image image array i) [
  | false ↦ remove_loop rounds (suc i) image array len
  | true ↦ elim (leb (suc i) len) [
    | true ↦ remove_loop rounds (suc i) image (shift i (len - suc i) array) (len - 1)
    | false ↦ none
  ]
]

module _ ⦃f : Foreign⦄ where
  -- The preloader, and what lies outside.
  abbrev pub Held : Type 0
  Held = Preloader × f.Outside

  abbrev pub outside_call : {A : Type 0} → Call A → Action Held A
  outside_call m (p, x) = let (y, r) = m x in ((p, y), r)

  abbrev pub container : Text → Text → List Text → Container
  container name image command = record {
    name = name;
    image = image;
    image_pull_policy = [];
    command = command;
    args = [];
    env = [];
    mounts = [];
    resources = none;
    ports = [];
    liveness_probe = none;
    readiness_probe = none;
    startup_probe = none;
    security_context = none;
    run_as_user = none;
  }

  -- A container for each image, numbered from `i`.
  abbrev pub image_containers : ℕ → List Text → List Container
  image_containers i [] = []
  image_containers i (image ∷ images) =
      container (codes "image" ++ (decimal i ++ codes "-preloader")) image
        (codes "/bin/sh" ∷ codes "-c" ∷ codes "exit 0" ∷ [])
      ∷ image_containers (suc i) images

  abbrev pub pause_container : Container
  pause_container = container (codes "pause-container") (codes "k8s.gcr.io/pause") []

  abbrev pub preloader_labels : Preloader → Labels
  preloader_labels p =
      (codes "app", p.name)
      ∷ (codes "k8s.kubernetes.io/managed-by", codes "knuu")
      ∷ (codes "knuu.sh/scope", p.scope)
      ∷ (codes "knuu.sh/test-started", p.start_time)
      ∷ []

  abbrev pub cleanup : Client → Preloader → Call (Unit {0})
  cleanup c p = delete_daemon_set c p.name

  module _ ⦃v : Validation⦄ where
    abbrev pub put_daemon_set : Client → Preloader → List Container → Call (Unit {0})
    put_daemon_set c p init_containers = do
      exists ← daemon_set_exists c p.name
      if exists
          then ignore (
              update_daemon_set c p.name (preloader_labels p) init_containers
                (pause_container ∷ []))
          else ignore (
              create_daemon_set c p.name (preloader_labels p) init_containers
                (pause_container ∷ []))

    abbrev pub preload : Client → Preloader → List Text → Call (Unit {0})
    preload c p [] = delete_daemon_set c p.name
    preload c p (image ∷ images) = put_daemon_set c p (image_containers 0 (image ∷ images))

    abbrev pub preload_images : Client → Action Held (Unit {0})
    preload_images c (p, x) = outside_call (preload c p p.images) (p, x)

    abbrev pub set_images : Client → List Text → Action Held (Unit {0})
    set_images c images = do modify λ (p, x). (record p { images = images }, x); preload_images c

    unfoldable pub add_image : Client → Text → Action Held (Unit {0})
    add_image c image (p, x) =
        if any (λ v. text_eq v image) p.images
        then ((p, x), ok tt)
        else set_images c (p.images ++ image ∷ []) (p, x)

    abbrev pub removed : Client → Option (List Text) → Action Held (Unit {0})
    removed c none = crash
    removed c (some images) = set_images c images

    unfoldable pub remove_image : Client → Text → Action Held (Unit {0})
    unfolding remove_loop
    remove_image c image (p, x) =
        removed c (remove_loop (length p.images) 0 image p.images (length p.images)) (p, x)

    unfoldable pub empty_images : Client → Action Held (Unit {0})
    empty_images c = set_images c []
