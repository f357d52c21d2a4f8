-- ===== src/Container.antt =====
-- docker.go of pkg/container: the BuilderFactory, which gathers the instructions of a Dockerfile.
pub mod Frame
use knuu.Prelude.{
  Bool, true, false, not, List, [], ◌∷◌, ◌++◌, length, ltb, ℕ, suc, ◌+◌, if◌then◌else◌, Option,
  none, some,
}
use knuu.Prelude.Strings.{concat}
use knuu.Prelude.Text.{Text, codes, is_empty, join}
use knuu.Errors.{container_code, Result, ok, err, panic, foreign, not_found, is_not_found}
use knuu.Errors.Codes.{
  image_name_empty, build_context_empty, failed_to_create_context_dir, failed_to_write_dockerfile,
  image_builder_not_set, failed_to_get_default_cache_options, hashing_build_context,
}
use knuu.Action.{Action, pure, gets, modify, raise, require, wrapping, attempt, when, ◌>>=◌, ◌>>◌}
use knuu.Host.{Foreign, Os}
use knuu.K8s.Types.{Labels}
use knuu.Builder.{GitContext, git_build_context, default_cache, dir_build_context}
use knuu.Instance.World.{Ref, World, BuilderFactory, call, update}

abbrev add_instruction : Text → BuilderFactory → BuilderFactory
add_instruction line b = record b {
  docker_file_instructions = b.docker_file_instructions ++ line ∷ [];
}

pub changed : BuilderFactory → Bool
changed b = ltb 1 (length b.docker_file_instructions)

-- hasher.Write of the Dockerfile and of each file, one after the other.
pub hash_input : BuilderFactory → List Text → Text
hash_input b contents = join (codes "\n") b.docker_file_instructions ++ concat contents

module _ ⦃f : Foreign⦄ where
  unfoldable pub factory : Ref → Action World BuilderFactory
  factory b = gets (λ w. w.factories b)

  unfoldable pub edit_factory : Ref → (BuilderFactory → BuilderFactory) → Action World (Unit {0})
  edit_factory b g = modify λ w. record w { factories = update w.factories b (g (w.factories b)) }

  pub add_cmd_to_builder : Ref → List Text → Action World (Unit {0})
  add_cmd_to_builder b command =
      edit_factory b (add_instruction (codes "RUN " ++ join (codes " ") command))

  pub add_to_builder : Ref → Text → Text → Text → Action World (Unit {0})
  add_to_builder b src_path dest_path chown = edit_factory b (
      add_instruction
        (codes "ADD --chown=" ++ (chown ++ (codes " " ++ (src_path ++ (codes " " ++ dest_path))))))

  pub set_env_var : Ref → Text → Text → Action World (Unit {0})
  set_env_var b name value =
      edit_factory b (add_instruction (codes "ENV " ++ (name ++ (codes "=" ++ value))))

  pub set_user : Ref → Text → Action World (Unit {0})
  set_user b user = edit_factory b (add_instruction (codes "USER " ++ user))

  -- &BuilderFactory{…}: a place that no pointer names yet.
  unfoldable pub allocate_factory : BuilderFactory → Action World Ref
  allocate_factory a = do
    b ← gets (λ w. w.next_factory)
    modify (λ w. record w { factories = update w.factories b a; next_factory = b + 1 })
    pure b

  module _ ⦃o : Os⦄ where
    -- NewBuilderFactory with verifyOptions. The logger of the system is never nil.
    unfoldable pub new_builder_factory : Text → Text → Labels → Action World Ref
    unfolding allocate_factory
    new_builder_factory image_name build_context args = do
      require (not (is_empty image_name)) (container_code image_name_empty)
      require (not (is_empty build_context)) (container_code build_context_empty)
      wrapping (container_code failed_to_create_context_dir) (call (o.mkdir_all build_context))
      allocate_factory (record {
        image_name_from = image_name;
        image_name_to = [];
        docker_file_instructions = (codes "FROM " ++ image_name) ∷ [];
        build_context = build_context;
        args = args;
      })

    -- if _, err := os.Stat(dir); os.IsNotExist(err) { os.MkdirAll(dir) }
    make_context : Text → Action World (Unit {0})
    make_context dir = do
      found ← attempt (call (o.stat dir))
      when (is_not_found found)
          (wrapping (container_code failed_to_create_context_dir) (call (o.mkdir_all dir)))
          (pure tt)

    pub push_builder_image : Ref → Text → Action World (Unit {0})
    unfolding changed make_context
    push_builder_image b image_name = do
      before ← factory b
      when (not (changed before)) (pure tt) do
        edit_factory b (λ a. record a { image_name_to = image_name })
        fact ← factory b
        make_context fact.build_context
        wrapping (container_code failed_to_write_dockerfile) (
            call (
              o.write_file (o.path_join fact.build_context (codes "Dockerfile"))
                (join (codes "\n") fact.docker_file_instructions)))
        require o.has_builder (container_code image_builder_not_set)
        call
            (o.build_image fact.image_name_to (dir_build_context fact.build_context) fact.args none)

    -- The name of the context's repository is cleaned a second time.
    unfoldable pub build_image_from_git_repo : Ref → GitContext → Text → Action World (Unit {0})
    unfolding git_build_context default_cache
    build_image_from_git_repo b git_ctx image_name = do
      let (cleaned, build_ctx) = git_build_context git_ctx
      edit_factory b (λ a. record a { image_name_to = image_name })
      cache ←
          wrapping (container_code failed_to_get_default_cache_options)
            (λ w. (w, default_cache build_ctx))
      require o.has_builder (container_code image_builder_not_set)
      fact ← factory b
      call (o.build_image image_name build_ctx fact.args (some cache))

    -- The error of the walk is of the outside, or ErrReadingFile.
    pub generate_image_hash : Ref → Action World Text
    unfolding hash_input
    generate_image_hash b = do
      fact ← factory b
      contents ←
          wrapping (container_code hashing_build_context)
            (call (o.walk_contents fact.build_context))
      pure (o.sha256_hex (hash_input fact contents))
