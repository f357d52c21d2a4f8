-- ===== src/Builder/Kaniko/Jobs.antt =====
-- The job that Kaniko prepares.
use knuu.Prelude.{
  ◌≡◌, refl, Bool, true, false, if◌then◌else◌, inl, inr, ◌⊎◌, Option, none, some, List, [], ◌∷◌,
  ◌++◌, map, All, Bool-cases,
}
use knuu.Prelude.Text.{Text, codes}
use knuu.Errors.Kaniko.{mounting_dir}
use knuu.Action.{pure}
use knuu.Action.Values.{OfValue, Yields, Yields-pure, Yields-wrapping, Yields-after}
use knuu.Host.{Foreign, Os, Parser, CacheOptions}
use knuu.K8s.Objects.{Mount, PodVolume, Container, Job}
use knuu.Minio.{ObjectStore, Minio}
use knuu.Builder.{Arg, get_key, get_value, is_dir_context}
use knuu.Builder.Kaniko.{
  BuilderOptions, cache_args, prepare_args, workspace_mount, download_container, Archiver,
  kaniko_job, mounted, in_case, mount_dir, prepare_job,
}

abbrev pub IsVolumeOf : List PodVolume → Text → Type 0
IsVolumeOf [] name = ⊥
IsVolumeOf (v ∷ vs) name = (v.name ≡ name) ⊎ IsVolumeOf vs name

abbrev pub HasMount : Mount → List Mount → Type 0
HasMount m [] = ⊥
HasMount m (n ∷ ns) = (n ≡ m) ⊎ HasMount m ns

abbrev pub HasArg : Text → List Text → Type 0
HasArg a [] = ⊥
HasArg a (x ∷ xs) = (x ≡ a) ⊎ HasArg a xs

has_left : (a : Text) (xs ys : List Text) → HasArg a xs → HasArg a (xs ++ ys)
has_left a [] ys h = absurd h
has_left a (x ∷ xs) ys (inl e) = inl e
has_left a (x ∷ xs) ys (inr h) = inr (has_left a xs ys h)

has_right : (a : Text) (xs ys : List Text) → HasArg a ys → HasArg a (xs ++ ys)
has_right a [] ys h = h
has_right a (x ∷ xs) ys h = inr (has_right a xs ys h)

-- An argument of the options, as Kaniko takes it.
abbrev pub shown : Arg → Text
shown a = get_key a ++ (codes "=" ++ get_value a)

abbrev pub AllShown : List Arg → List Text → Type 0
AllShown args xs = All (λ a. HasArg (shown a) xs) args

-- A cache that is enabled is asked for.
abbrev pub AsksFor : Option CacheOptions → List Text → Type 0
AsksFor none xs = Unit
AsksFor (some cache) xs = if cache.enabled then HasArg (codes "--cache=true") xs else Unit

module _ ⦃f : Foreign⦄ where
  -- For a directory: an init container downloads the archive to a path under a directory, where it and
  -- the container mount the same volume of the job, and the container has that path as a context.
  -- Otherwise there is nothing to mount.
  abbrev pub IsFed : Bool → Job → Container → Type 0
  IsFed false job c = (job.init_containers ≡ []) × (c.mounts ≡ [])
  IsFed true job c =
      HasArg (codes "--context=tar:///workspace/archive.tar.gz") c.args
      × ((m : Mount) × ((m.mount_path ≡ codes "/workspace")
            × (HasMount m c.mounts
                × (IsVolumeOf job.volumes m.name
                    × ((url : Text) × ((init : Container) × ((job.init_containers ≡ init ∷ [])
                            × (HasMount m init.mounts
                                × (init.args
                                    ≡ (codes "curl -L -o /workspace/archive.tar.gz '"
                                        ++ (url ++ codes "'"))
                                      ∷ [])))))))))

  -- What a job for the options has.
  pub record IsPrepared (b : BuilderOptions) (job : Job) : Type 0 where
    pub container : Container
    pub only : job.containers ≡ container ∷ []
    pub context_given : HasArg (codes "--context=" ++ b.build_context) container.args
    pub destination_given : HasArg (codes "--destination=" ++ b.destination) container.args
    pub args_given : AllShown b.args container.args
    pub cache_asked : AsksFor b.cache container.args
    pub fed : IsFed (is_dir_context b.build_context) job container

  abbrev Within : List Text → List Text → Type 0
  Within xs ys = (a : Text) → HasArg a xs → HasArg a ys

  shown-Within :
      (args : List Arg) (xs ys : List Text) → Within xs ys → AllShown args xs → AllShown args ys
  shown-Within [] xs ys w h = tt
  shown-Within (a ∷ args) xs ys w (h, hs) = (w (shown a) h, shown-Within args xs ys w hs)

  all_shown : (args : List Arg) → AllShown args (map shown args)
  all_shown [] = tt
  all_shown (a ∷ args) = (
    inl refl,
    shown-Within args (map shown args) (map shown (a ∷ args)) (λ b h. inr h) (all_shown args),
  )

  asks_for : (cache : Option CacheOptions) → AsksFor cache (cache_args cache)
  asks_for none = tt
  asks_for (some cache) = elim (Bool-cases cache.enabled) [
    | inl e ↦ rw e (inl refl)
    | inr e ↦ rw e tt
  ]

  asks-Within :
      (cache : Option CacheOptions) (xs ys : List Text)
      → Within xs ys
      → AsksFor cache xs
      → AsksFor cache ys
  asks-Within none xs ys w = λ h. tt
  asks-Within (some cache) xs ys w = elim (Bool-cases cache.enabled) [
    | inl e ↦ rw e λ h. w _ h
    | inr e ↦ rw e λ h. tt
  ]

  -- The arguments of prepareArgs are enough, whatever else there is.
  args_lem :
      (b : BuilderOptions) (xs : List Text)
      → Within (prepare_args b) xs
      → HasArg (codes "--context=" ++ b.build_context) xs
        × (HasArg (codes "--destination=" ++ b.destination) xs
            × (AllShown b.args xs × AsksFor b.cache xs))
  unfolding prepare_args
  args_lem b xs w =
      let given = map shown b.args in
      (
        w _ (inl refl),
        (
          w _ (inr (inl refl)),
          (
            shown-Within b.args given xs
                (λ a h. w a (inr (inr (has_right a (cache_args b.cache) given h))))
                (all_shown b.args),
            asks-Within b.cache (cache_args b.cache) xs
                (λ a h. w a (inr (inr (has_left a (cache_args b.cache) given h))))
                (asks_for b.cache),
          ),
        ),
      )

  module _ ⦃s : ObjectStore⦄ ⦃o : Os⦄ ⦃r : Archiver⦄ where
    mounted_lem :
        (name : Text) (storage : f.Quantity) (b : BuilderOptions) (url : Text)
        → is_dir_context b.build_context ≡ true
        → OfValue (IsPrepared b) (mounted (kaniko_job name storage b) url)
    mounted_lem name storage b url e =
        let archive = codes "--context=tar:///workspace/archive.tar.gz" ∷ [] in
        let (context, (destination, (args, cache))) =
          args_lem b (prepare_args b ++ archive) (λ a. has_left a _ archive) in
        record {
          container = _;
          only = refl;
          context_given = context;
          destination_given = destination;
          args_given = args;
          cache_asked = cache;
          fed = rw e (
            has_right _ (prepare_args b) archive (inl refl),
            (
              workspace_mount,
              (
                refl,
                (inl refl, (inl refl, (url, (download_container url, (refl, (inl refl, refl)))))),
              ),
            ),
          );
        }

    plain_lem :
        (name : Text) (storage : f.Quantity) (b : BuilderOptions)
        → is_dir_context b.build_context ≡ false
        → IsPrepared b (kaniko_job name storage b)
    plain_lem name storage b e =
        let (context, (destination, (args, cache))) = args_lem b (prepare_args b) (λ a h. h) in
        record {
          container = _;
          only = refl;
          context_given = context;
          destination_given = destination;
          args_given = args;
          cache_asked = cache;
          fed = rw e (refl, refl);
        }

    mount_dir_lem :
        (name : Text) (storage : f.Quantity) (b : BuilderOptions)
        → is_dir_context b.build_context ≡ true
        → Yields (IsPrepared b) (mount_dir b.build_context (kaniko_job name storage b))
    unfolding mount_dir
    mount_dir_lem name storage b e =
        let P = IsPrepared b in
        Yields-after P _ _ λ bytes.
          Yields-after P _ _
            λ u. Yields-after P _ _ λ url. record { at = λ t. mounted_lem name storage b url e }

    job_lem :
        (name : Text) (storage : f.Quantity) (b : BuilderOptions)
        → Yields (IsPrepared b) (
            if is_dir_context b.build_context
            then in_case mounting_dir (mount_dir b.build_context (kaniko_job name storage b))
            else pure (kaniko_job name storage b))
    job_lem name storage b = elim (Bool-cases (is_dir_context b.build_context)) [
      | inl e ↦ rw e (Yields-wrapping _ _ _ (mount_dir_lem name storage b e))
      | inr e ↦ rw e (Yields-pure (IsPrepared b) _ (plain_lem name storage b e))
    ]

    -- Whatever the outside does, a job that prepareJob returns has one container, whose arguments name
    -- the context and the destination of the options, ask for a cache that is enabled, and have the
    -- arguments of the options. For a directory an init container downloads the archive to a path in a
    -- volume of the job that both mount, and the container has that path as a context as well; otherwise
    -- there are no init containers and no mounts.
    pub prepare_job-IsPrepared :
        ⦃p : Parser⦄
        → (b : BuilderOptions) (t : Option (Minio ⦃s = s⦄) × f.Outside)
        → OfValue (IsPrepared b) (prepare_job b t).1
    unfolding prepare_job
    prepare_job-IsPrepared ⦃p⦄ b t =
        (Yields-after (IsPrepared b) _ _
            λ name. Yields-after (IsPrepared b) _ _ λ storage. job_lem name storage b).at
          t
