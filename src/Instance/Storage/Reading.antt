-- ===== src/Instance/Storage/Reading.antt =====
-- storage.go: files that are read out of a running instance, or out of an image by an instance that is
-- made for it.
use knuu.Prelude.{ℕ, Option, none, some, [], ◌∷◌}
use knuu.Prelude.Text.{Text, codes}
use knuu.Errors.Codes.{
  getting_file_not_allowed, getting_file, reading_file, reading_file_not_allowed,
  reading_file_from_instance,
}
use knuu.Action.{Action, pure, deferring, when, ◌>>=◌, ◌>>◌}
use knuu.Host.{Foreign, Os}
use knuu.K8s.Types.{KubeManager}
use knuu.Names.{new_random_k8}
use knuu.Instance.State.{State, state_eq}
use knuu.Instance.World.{Ref, World, SidecarManager, call}
use knuu.Instance.Access.{or_wrap, self, require_state}
use knuu.Instance.Build.{set_image, set_start_command, commit}
use knuu.Instance.Execution.{execute_command, start, destroy}
use knuu.Instance.Naming

module _ ⦃f : Foreign⦄ ⦃k : KubeManager⦄ where
  unfoldable pub read_file_from_running_instance : Ref → Text → Action World Text
  read_file_from_running_instance i path = do
    require_state i (State.started ∷ []) reading_file_not_allowed
    or_wrap reading_file_from_instance (execute_command i (codes "cat" ∷ path ∷ []))

  module _ ⦃o : Os⦄ ⦃m : SidecarManager⦄ where
    -- The file, once the instance has started, which is destroyed afterwards; none means that the
    -- rounds of its start ran out.
    abbrev pub read_and_destroy : Ref → Text → Option (Unit {0}) → Action World (Option Text)
    read_and_destroy t path none = pure none
    read_and_destroy t path (some u) =
        deferring (destroy t)
          do output ← execute_command t (codes "cat" ∷ path ∷ []); pure (some output)

    unfoldable pub read_file_from_image : ℕ → Ref → Text → Action World (Option Text)
    unfolding new_random_k8
    read_file_from_image rounds i path = do
      name ← call (new_random_k8 (codes "tmp-dl"))
      t ← Naming.new name
      inst ← self i
      set_image t inst.build.image_name []
      set_start_command t (codes "sleep" ∷ codes "infinity" ∷ [])
      commit t
      started ← start rounds t
      read_and_destroy t path started

    unfoldable pub get_file_bytes : ℕ → Ref → Text → Action World (Option Text)
    unfolding read_file_from_image read_file_from_running_instance
    get_file_bytes rounds i path = do
      require_state i (State.preparing ∷ State.committed ∷ State.started ∷ [])
          getting_file_not_allowed
      inst ← self i
      when (state_eq inst.state State.started)
          (do
            content ← or_wrap reading_file (read_file_from_running_instance i path)
            pure (some content))
          (or_wrap getting_file (read_file_from_image rounds i path))
