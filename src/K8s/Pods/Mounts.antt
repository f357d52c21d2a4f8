-- ===== src/K8s/Pods/Mounts.antt =====
-- Every mount of a pod names one of the pod's volumes.
use knuu.Prelude.{
  ℕ, zero, suc, ◌+◌, ◌≡◌, refl, Bool, true, false, not, ◌||◌, ◌&&◌, inl, inr, List, [], ◌∷◌, ◌++◌,
  map, length, any, All, All-append, Bool-cases, arith,
}
use knuu.Prelude.Text.{Text, text_eq, text_eq_iff}
use knuu.Host.{Foreign, Os}
use knuu.K8s.Types.{File, Volume, ContainerConfig, PodConfig}
use knuu.K8s.Objects.{Mount, PodVolume, Container, PodSpec}
use knuu.K8s.Pods.{
  is_zero, config_suffix, init_mount, build_pod_volumes, directories, build_container_volumes,
  file_mounts, build_init_container_volumes, prepare_container, prepare_init_containers,
  prepare_pod_volumes, add_sidecars, prepare_pod_spec,
}

any_left : {A : Type 0} (p : A → Bool) (xs ys : List A) → any p xs ≡ true → any p (xs ++ ys) ≡ true
any_left p [] ys h = cc
any_left p (x ∷ xs) ys h = ground (arith, any_left p xs ys)

any_right : {A : Type 0} (p : A → Bool) (xs ys : List A) → any p ys ≡ true → any p (xs ++ ys) ≡ true
any_right p [] ys h = h
any_right p (x ∷ xs) ys h = ground (arith, any_right p xs ys h)

module _ {A : Type 0} {P Q : A → Type 0} (imp : (a : A) → P a → Q a) where
  All-imp : (xs : List A) → All P xs → All Q xs
  All-imp [] h = tt
  All-imp (x ∷ xs) (p, h) = (imp x p, All-imp xs h)

module _ {A B : Type 0} (P : B → Type 0) (g : A → B) (every : (a : A) → P (g a)) where
  All-map : (xs : List A) → All P (map g xs)
  All-map [] = tt
  All-map (x ∷ xs) = (every x, All-map xs)

abbrev pub has_volume : List PodVolume → Text → Bool
has_volume volumes name = any (λ v. text_eq v.name name) volumes

-- The mount names one of the volumes.
abbrev pub HasVolume : List PodVolume → Mount → Type 0
HasVolume volumes mount = has_volume volumes mount.name ≡ true

abbrev IsNamed : Text → Mount → Type 0
IsNamed name mount = mount.name ≡ name

named :
    (volumes : List PodVolume) (name : Text)
    → has_volume volumes name ≡ true
    → (ms : List Mount) → All (IsNamed name) ms
    → All (HasVolume volumes) ms
named volumes name h ms = All-imp (λ m e. rw e h) ms

text_same : (t : Text) → text_eq t t ≡ true
text_same t = (text_eq_iff t t).1 refl

-- The volume that a container's own mounts name, and that of its files.
own_volume :
    (name : Text) (n m : ℕ)
    → is_zero n && is_zero m ≡ false
    → has_volume (build_pod_volumes name n m) name ≡ true
unfolding build_pod_volumes
own_volume name zero zero h = cc
own_volume name (suc n) m h = ground (arith, text_same name)
own_volume name zero (suc m) h = ground (arith, text_same name)

files_volume :
    (name : Text) (n m : ℕ)
    → has_volume (build_pod_volumes name n (suc m)) (name ++ config_suffix) ≡ true
unfolding build_pod_volumes
files_volume name zero m = ground (arith, text_same (name ++ config_suffix))
files_volume name (suc n) m = ground (arith, text_same (name ++ config_suffix))

module _ ⦃f : Foreign⦄ where
  abbrev pub IsMounted : List PodVolume → Container → Type 0
  IsMounted volumes c = All (HasVolume volumes) c.mounts

  pub record IsClosed (spec : PodSpec) : Type 0 where
    pub init_containers : All (IsMounted spec.volumes) spec.init_containers
    pub containers : All (IsMounted spec.volumes) spec.containers

  module _ ⦃o : Os⦄ where
    container-IsNamed :
        (name : Text) (vs : List Volume) (fs : List File)
        → All (IsNamed name) (build_container_volumes name vs fs)
    unfolding build_container_volumes
    container-IsNamed name [] fs = All-map (IsNamed name) _ (λ path. refl) (directories [] fs)
    container-IsNamed name (v ∷ vs) fs =
        All-append (IsNamed name) (map _ (v ∷ vs)) []
          (All-map (IsNamed name) _ (λ volume. refl) (v ∷ vs)) tt

    file_mounts-IsNamed :
        (name : Text) (n : ℕ) (fs : List File)
        → All (IsNamed (name ++ config_suffix)) (file_mounts name n fs)
    unfolding file_mounts
    file_mounts-IsNamed name n [] = tt
    file_mounts-IsNamed name n (x ∷ fs) = (refl, file_mounts-IsNamed name (n + 1) fs)

    container_mounted :
        (name : Text) (vs : List Volume) (fs : List File)
        → All
            (HasVolume (build_pod_volumes name (length vs) (length fs)))
            (build_container_volumes name vs fs)
    container_mounted name [] [] = unfold build_container_volumes directories in tt
    container_mounted name [] (x ∷ fs) =
        named _ name (own_volume name 0 (suc (length fs)) refl) _
          (container-IsNamed name [] (x ∷ fs))
    container_mounted name (v ∷ vs) fs =
        named _ name (own_volume name (suc (length vs)) (length fs) refl) _
          (container-IsNamed name (v ∷ vs) fs)

    init_mounted :
        (name : Text) (vs : List Volume) (fs : List File)
        → All
            (HasVolume (build_pod_volumes name (length vs) (length fs)))
            (build_init_container_volumes name vs fs)
    unfolding build_init_container_volumes
    init_mounted name [] [] = unfold directories file_mounts in tt
    init_mounted name [] (x ∷ fs) =
        let vols = build_pod_volumes name 0 (suc (length fs)) in
        let mounts = map (init_mount name) (directories [] (x ∷ fs)) in
        let of_files = file_mounts name 0 (x ∷ fs) in
        All-append (HasVolume vols) mounts of_files
          (named vols name (own_volume name 0 (suc (length fs)) refl) mounts
            (All-map (IsNamed name) (init_mount name) (λ path. refl) (directories [] (x ∷ fs))))
          (named vols (name ++ config_suffix) (files_volume name 0 (length fs)) of_files
            (file_mounts-IsNamed name 0 (x ∷ fs)))
    init_mounted name (v ∷ vs) [] =
        unfold file_mounts in (own_volume name (suc (length vs)) 0 refl, tt)
    init_mounted name (v ∷ vs) (x ∷ fs) =
        let vols = build_pod_volumes name (suc (length vs)) (suc (length fs)) in
        (
          own_volume name (suc (length vs)) (suc (length fs)) refl,
          named vols (name ++ config_suffix) (files_volume name (suc (length vs)) (length fs))
              (file_mounts name 0 (x ∷ fs)) (file_mounts-IsNamed name 0 (x ∷ fs)),
        )

    prepared_container :
        (config : ContainerConfig)
        → IsMounted (prepare_pod_volumes config) (prepare_container config)
    unfolding prepare_container prepare_pod_volumes
    prepared_container config = container_mounted config.name config.volumes config.files

    prepared_init :
        (config : ContainerConfig) (init : Bool)
        → All (IsMounted (prepare_pod_volumes config)) (prepare_init_containers config init)
    unfolding prepare_init_containers prepare_pod_volumes
    prepared_init config init =
        elim (Bool-cases
          (not init || (is_zero (length config.volumes) && is_zero (length config.files)))) [
            | inl e ↦ rw e tt
            | inr e ↦ rw e (init_mounted config.name config.volumes config.files, tt)
          ]

    -- More volumes, before or after, change nothing for what is mounted.
    more_after :
        (vols more : List PodVolume) (cs : List Container)
        → All (IsMounted vols) cs
        → All (IsMounted (vols ++ more)) cs
    more_after vols more = All-imp λ c. All-imp (λ m h. any_left _ vols more h) c.mounts

    more_before :
        (vols more : List PodVolume) (cs : List Container)
        → All (IsMounted vols) cs
        → All (IsMounted (more ++ vols)) cs
    more_before vols more = All-imp λ c. All-imp (λ m h. any_right _ more vols h) c.mounts

    add_sidecars-IsClosed :
        (configs : List ContainerConfig) (spec : PodSpec)
        → IsClosed spec
        → IsClosed (add_sidecars spec configs)
    unfolding add_sidecars
    add_sidecars-IsClosed [] spec h = h
    add_sidecars-IsClosed (config ∷ configs) spec h =
        let own = prepare_pod_volumes config in
        let vols = spec.volumes ++ own in
        add_sidecars-IsClosed configs _ (record {
          init_containers =
              All-append (IsMounted vols) spec.init_containers (prepare_init_containers config true)
                (more_after spec.volumes own spec.init_containers h.init_containers)
                (more_before own spec.volumes (prepare_init_containers config true)
                  (prepared_init config true));
          containers =
              All-append (IsMounted vols) spec.containers (prepare_container config ∷ [])
                (more_after spec.volumes own spec.containers h.containers)
                (more_before own spec.volumes (prepare_container config ∷ [])
                  (prepared_container config, tt));
        })

    -- In the pod that preparePodSpec builds, with and without init containers, every mount of every
    -- container, init container and sidecar names a volume of the pod.
    pub prepare_pod_spec-IsClosed :
        (spec : PodConfig) (init : Bool) → IsClosed (prepare_pod_spec spec init)
    unfolding prepare_pod_spec
    prepare_pod_spec-IsClosed spec init = add_sidecars-IsClosed spec.sidecar_configs _ (record {
      init_containers = prepared_init spec.container_config init;
      containers = (prepared_container spec.container_config, tt);
    })
