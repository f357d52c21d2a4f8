-- ===== src/Instance/Build/Frame.antt =====
-- The operations on the image of an instance change its build settings, its state where the
-- operation sets it, the factories and the outside.
use knuu.Prelude.{List, Option, none, some}
use knuu.Prelude.Text.{Text}
use knuu.Action.Moves.{Moves, moves_rules}
use knuu.Host.{Foreign, Os}
use knuu.K8s.Types.{Labels}
use knuu.Container.Frame.{
  factory-Each, add_cmd_to_builder-Each, add_to_builder-Each, set_env_var-Each,
  set_user-Each as builder_user-Each, new_builder_factory-Each, push_builder_image-Each,
  generate_image_hash-Each,
}
use knuu.Instance.State
use knuu.Instance.World.{Ref, Instance}
use knuu.Instance.Access.Frame.{Frame, Each, set_state-Each, frame_rules}
use knuu.Instance.Build.{
  set_image_pull_policy, set_start_command, set_args, execute_command, set_user, set_node_selector,
  set_environment_variable, add_file_to_builder, get_build_dir, get_image_registry,
  image_not_allowed, set_image, use_cache, commit,
}

pub ruleset factory_rules = (
  factory-Each, add_cmd_to_builder-Each, add_to_builder-Each, set_env_var-Each, builder_user-Each,
  new_builder_factory-Each, push_builder_image-Each, generate_image_hash-Each,
)

module _ ⦃f : Foreign⦄ {Q : Instance → Instance → Type 0} (q : Frame Q) (i : Ref) where
  pub set_image_pull_policy-Each : (p : Text) → Moves (Each Q) (set_image_pull_policy i p)
  unfolding set_image_pull_policy
  set_image_pull_policy-Each p = search (frame_rules, q.build)

  pub set_start_command-Each : (c : List Text) → Moves (Each Q) (set_start_command i c)
  unfolding set_start_command
  set_start_command-Each c = search (moves_rules, frame_rules, q.build)

  pub set_args-Each : (args : List Text) → Moves (Each Q) (set_args i args)
  unfolding set_args
  set_args-Each args = search (moves_rules, frame_rules, q.build)

  pub execute_command-Each : (c : List Text) → Moves (Each Q) (execute_command i c)
  unfolding execute_command
  execute_command-Each c = search (moves_rules, frame_rules, factory_rules) depth 12

  pub set_user-Each : (user : Text) → Moves (Each Q) (set_user i user)
  unfolding set_user
  set_user-Each user = search (moves_rules, frame_rules, factory_rules) depth 12

  pub set_node_selector-Each : (s : Labels) → Moves (Each Q) (set_node_selector i s)
  unfolding set_node_selector
  set_node_selector-Each s = search (moves_rules, frame_rules, q.build)

  pub set_environment_variable-Each :
      (key value : Text) → Moves (Each Q) (set_environment_variable i key value)
  unfolding set_environment_variable
  set_environment_variable-Each key value =
      search (moves_rules, frame_rules, factory_rules, q.build) depth 12

  pub add_file_to_builder-Each :
      (dest chown : Text) → Moves (Each Q) (add_file_to_builder i dest chown)
  unfolding add_file_to_builder
  add_file_to_builder-Each dest chown = search (moves_rules, frame_rules, factory_rules) depth 12

  module _ ⦃o : Os⦄ where
    pub get_build_dir-Each : Moves (Each Q) (get_build_dir i)
    unfolding get_build_dir
    get_build_dir-Each = search (moves_rules, frame_rules) depth 12

    pub get_image_registry-Each : (name : Text) → Moves (Each Q) (get_image_registry name)
    unfolding get_image_registry
    get_image_registry-Each name = search (moves_rules, frame_rules) depth 12

    pub image_not_allowed-Each : Moves (Each Q) (image_not_allowed i)
    unfolding image_not_allowed
    image_not_allowed-Each = search (moves_rules, frame_rules) depth 12

module _ ⦃f : Foreign⦄ {Q : Instance → Instance → Type 0} (q : Frame Q) ⦃o : Os⦄ (i : Ref) where
  pub set_image-Each :
      ((a : Instance) → Q a (record a { state = State.preparing }))
      → (image : Text) (args : Labels) → Moves (Each Q) (set_image i image args)
  unfolding set_image
  set_image-Each sets image args =
      search
        (
          moves_rules,
          frame_rules,
          factory_rules,
          image_not_allowed-Each,
          get_build_dir-Each,
          set_state-Each q State.preparing sets,
          q.build,
        )
        depth 16

  module _ (sets : (a : Instance) → Q a (record a { state = State.committed })) where
    use_cache-Each :
        (b : Ref) (h name : Text) (cached : Option Text)
        → Moves (Each Q) (use_cache i b h name cached)
    use_cache-Each b h name none =
        search
          (moves_rules, frame_rules, factory_rules, set_state-Each q State.committed sets, q.build)
          depth 16
    use_cache-Each b h name (some cached) =
        search (moves_rules, frame_rules, set_state-Each q State.committed sets, q.build) depth 16

    pub commit-Each : Moves (Each Q) (commit i)
    unfolding commit
    commit-Each =
        search
          (
            moves_rules,
            frame_rules,
            factory_rules,
            get_image_registry-Each,
            use_cache-Each,
            set_state-Each q State.committed sets,
            q.build,
          )
          depth 20
