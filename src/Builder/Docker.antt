-- ===== src/Builder/Docker.antt =====
-- pkg/builder/docker: images that are built by the docker of the machine.
use knuu.Prelude.{Bool, ◌||◌, if◌then◌else◌, Option, none, some, List, [], ◌∷◌, ◌++◌}
use knuu.Prelude.Text.{Text, codes}
use knuu.Prelude.Strings.{has_prefix}
use knuu.Errors.{Fault, wrapped, foreign, other, docker_code}
use knuu.Errors.Docker.{
  DockerCode, failed_to_list_buildx_builders, run_command_failed, failed_to_create_builder,
  failed_to_build_image, failed_to_push_image, failed_to_remove_context_dir,
  git_context_not_supported,
}
use knuu.Action.{Action, pure, raise, throw, wrapping, ◌>>=◌, ◌>>◌}
use knuu.Host.{Foreign, Os, Call}
use knuu.Builder.{is_git_context, get_dir_from_build_context}
use knuu.Builder.Kaniko.{BuilderOptions}

-- What a command has written when it ends, and its error if it has one.
pub record Ran : Type 0 where
  pub failure : Option Fault
  pub stdout : Text
  pub stderr : Text

-- strings.Contains.
abbrev pub has_text : Text → Text → Bool
has_text [] part = has_prefix part []
has_text (c ∷ s) part = has_prefix part (c ∷ s) || has_text s part

abbrev pub new_line : Text
new_line = b'\n' ∷ []

abbrev pub in_case : {S A : Type 0} → DockerCode → Action S A → Action S A
in_case c m = wrapping (docker_code c) m

abbrev pub buildx : List Text → List Text
buildx args = codes "docker" ∷ codes "buildx" ∷ args

module _ ⦃f : Foreign⦄ where
  -- Package os/exec: Run and Output of a command, and the text of an error.
  pub record Shell : Type 0 where
    pub run : List Text → Call Ran
    pub output : List Text → Call Text
    pub fault_text : Fault → Text

  module _ ⦃h : Shell⦄ where
    abbrev pub command_result : Ran → Option Fault → Call Text
    command_result ran none = pure (ran.stdout ++ ran.stderr)
    command_result ran (some fault) = throw (
        wrapped (docker_code run_command_failed) (
          foreign (
            other (
              h.fault_text fault
              ++ (new_line
                  ++ (codes "stdout: "
                      ++ (ran.stdout ++ (new_line ++ (codes "stderr: " ++ ran.stderr)))))))))

    unfoldable pub run_command : List Text → Call Text
    run_command command = do ran ← h.run command; command_result ran ran.failure

    -- If no builder exists, one is made.
    abbrev pub ensure_builder : Text → Call Text
    ensure_builder output =
        if has_text output (codes "default")
        then pure []
        else in_case failed_to_create_builder
            (run_command (buildx (codes "create" ∷ codes "--use" ∷ [])))

    module _ ⦃o : Os⦄ where
      unfoldable pub build_locally : Text → Text → Call Text
      unfolding run_command
      build_locally ctx destination = do
        output ← in_case failed_to_list_buildx_builders (h.output (buildx (codes "ls" ∷ [])))
        ensure_builder output
        build_logs ← in_case failed_to_build_image (
            run_command (
              buildx (
                codes "build"
                ∷ codes "--load"
                ∷ codes "--platform"
                ∷ codes "linux/amd64"
                ∷ codes "-t"
                ∷ destination
                ∷ get_dir_from_build_context ctx
                ∷ [])))
        push_logs ←
            in_case failed_to_push_image
              (run_command (codes "docker" ∷ codes "push" ∷ destination ∷ []))
        in_case failed_to_remove_context_dir (o.remove_all ctx)
        pure (build_logs ++ (new_line ++ (push_logs ++ new_line)))

      unfoldable pub build : BuilderOptions → Call Text
      unfolding build_locally
      build b =
          if is_git_context b.build_context
          then raise (docker_code git_context_not_supported)
          else build_locally b.build_context b.destination
