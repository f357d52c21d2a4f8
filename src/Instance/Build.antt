-- ===== src/Instance/Build.antt =====
-- build.go: the image of an instance, its command, arguments and environment.
pub mod Frame
use knuu.Prelude.{Bool, true, false, not, Option, none, some, List, [], ◌∷◌, ◌++◌, lookup, insert}
use knuu.Prelude.Text.{Text, codes, is_empty, text_has_eq}
use knuu.Errors.{Result}
use knuu.Errors.Codes.{
  setting_image_not_allowed_for_sidecars_started, setting_image_not_allowed, getting_build_dir,
  creating_builder, setting_command, setting_args_not_allowed, adding_command_not_allowed,
  setting_user_not_allowed, setting_node_selector_not_allowed, committing_not_allowed,
  setting_git_repo, getting_image_name, generating_image_hash, getting_image_registry,
  pushing_image, setting_env_not_allowed,
}
use knuu.Action.{Action, pure, when, ◌>>=◌, ◌>>◌}
use knuu.Host.{Foreign, Os}
use knuu.K8s.Types.{Labels}
use knuu.Builder.{GitContext, git_build_context, default_image_name}
use knuu.Container
use knuu.Instance.State
use knuu.Instance.State.{state_eq, is_in_state}
use knuu.Instance.World.{Ref, World, Instance, Build, call}
use knuu.Instance.Access.{configurable, fail, or_wrap, deref, self, edit, require_state, set_state}

-- `builderFactory` is copied as a pointer; imagePullPolicy, buildDir and nodeSelector are not set.
pub clone : Build → Build
clone b = record {
  image_name = b.image_name;
  image_pull_policy = [];
  builder_factory = b.builder_factory;
  command = b.command;
  args = b.args;
  env = b.env;
  image_cache = b.image_cache;
  build_dir = [];
  node_selector = [];
}

module _ ⦃f : Foreign⦄ where
  abbrev edit_build : Ref → (Build → Build) → Action World (Unit {0})
  edit_build i g = edit i (λ inst. record inst { build = g inst.build })

  pub set_image_pull_policy : Ref → Text → Action World (Unit {0})
  set_image_pull_policy i policy = edit_build i (λ b. record b { image_pull_policy = policy })

  unfoldable pub set_start_command : Ref → List Text → Action World (Unit {0})
  set_start_command i command = do
    require_state i configurable setting_command
    edit_build i (λ b. record b { command = command })

  unfoldable pub set_args : Ref → List Text → Action World (Unit {0})
  set_args i args = do
    require_state i configurable setting_args_not_allowed
    edit_build i (λ b. record b { args = args })

  -- The factory of an instance; a call through nil panics.
  abbrev builder : Ref → Action World Ref
  builder i = do inst ← self i; deref inst.build.builder_factory

  unfoldable pub execute_command : Ref → List Text → Action World (Unit {0})
  execute_command i command = do
    require_state i (State.preparing ∷ []) adding_command_not_allowed
    b ← builder i
    Container.add_cmd_to_builder b command

  unfoldable pub set_user : Ref → Text → Action World (Unit {0})
  set_user i user = do
    require_state i (State.preparing ∷ []) setting_user_not_allowed
    b ← builder i
    Container.set_user b user

  unfoldable pub set_node_selector : Ref → Labels → Action World (Unit {0})
  set_node_selector i node_selector = do
    require_state i (State.preparing ∷ State.committed ∷ []) setting_node_selector_not_allowed
    edit_build i (λ b. record b { node_selector = node_selector })

  unfoldable pub set_environment_variable : Ref → Text → Text → Action World (Unit {0})
  set_environment_variable i key value = do
    require_state i configurable setting_env_not_allowed
    inst ← self i
    when (state_eq inst.state State.preparing) (do b ← builder i; Container.set_env_var b key value)
        (edit_build i (λ b. record b { env = insert key value b.env }))

  pub add_file_to_builder : Ref → Text → Text → Action World (Unit {0})
  add_file_to_builder i dest chown = do b ← builder i; Container.add_to_builder b dest dest chown

  module _ ⦃o : Os⦄ where
    -- The directory is made anew at every call: `buildDir` is never set.
    unfoldable pub get_build_dir : Ref → Action World Text
    get_build_dir i = do
      inst ← self i
      when (not (is_empty inst.build.build_dir)) (pure inst.build.build_dir) do
        tmp_dir ← call (o.mkdir_temp (codes "knuu-build-*"))
        pure (o.path_join tmp_dir inst.name)

    pub get_image_registry : Text → Action World Text
    get_image_registry image_name = do
      name ← when (is_empty image_name) (call o.new_uuid) (pure image_name)
      pure (codes "ttl.sh/" ++ (name ++ codes ":24h"))

    -- The guard of SetImage, whose error depends on whether the instance is a sidecar.
    unfoldable pub image_not_allowed : Ref → Action World (Unit {0})
    image_not_allowed i = do
      inst ← self i
      when (is_in_state inst.state (State.none ∷ State.preparing ∷ State.stopped ∷ [])) (pure tt) (
          when inst.sidecars.is_sidecar (fail setting_image_not_allowed_for_sidecars_started)
            (fail setting_image_not_allowed))

    unfoldable pub set_image : Ref → Text → Labels → Action World (Unit {0})
    unfolding image_not_allowed get_build_dir
    set_image i image args = do
      image_not_allowed i
      build_dir ← or_wrap getting_build_dir (get_build_dir i)
      b ← or_wrap creating_builder (Container.new_builder_factory image build_dir args)
      edit_build i (λ a. record a { builder_factory = some b })
      set_state i State.preparing

    -- The factory's context is the build directory; the repository's is built anew for the builder.
    unfoldable pub set_git_repo : Ref → GitContext → Labels → Action World (Unit {0})
    unfolding get_build_dir git_build_context default_image_name
    set_git_repo i git_context args = do
      require_state i (State.none ∷ []) setting_git_repo
      let (cleaned, b_ctx) = git_build_context git_context
      image_name ← or_wrap getting_image_name (λ w. (w, default_image_name b_ctx))
      build_dir ← or_wrap getting_build_dir (get_build_dir i)
      b ← or_wrap creating_builder (Container.new_builder_factory image_name build_dir args)
      edit_build i (λ a. record a { builder_factory = some b; image_name = image_name })
      set_state i State.preparing
      Container.build_image_from_git_repo b cleaned image_name

    -- The end of every successful path of Commit.
    abbrev pub committed_as : Ref → Text → Action World (Unit {0})
    committed_as i image_name = do
      edit_build i (λ a. record a { image_name = image_name })
      set_state i State.committed

    abbrev pub push_new : Ref → Ref → Text → Text → Action World (Unit {0})
    push_new i b image_hash image_name = do
      or_wrap pushing_image (Container.push_builder_image b image_name)
      edit_build i (λ a. record a { image_cache = insert image_hash image_name a.image_cache })
      committed_as i image_name

    abbrev pub use_cache : Ref → Ref → Text → Text → Option Text → Action World (Unit {0})
    use_cache i b image_hash image_name (some cached) = committed_as i cached
    use_cache i b image_hash image_name none = push_new i b image_hash image_name

    unfoldable pub commit : Ref → Action World (Unit {0})
    unfolding get_image_registry
    commit i = do
      require_state i (State.preparing ∷ []) committing_not_allowed
      b ← builder i
      fact ← Container.factory b
      when (not (Container.changed fact)) (committed_as i fact.image_name_from) do
        image_hash ← or_wrap generating_image_hash (Container.generate_image_hash b)
        image_name ← or_wrap getting_image_registry (get_image_registry image_hash)
        inst ← self i
        use_cache i b image_hash image_name (lookup image_hash inst.build.image_cache)
