-- ===== src/Errors/Docker.antt =====
-- The error variables of pkg/builder/docker/errors.go, without the leading `Err`.

pub data DockerCode : Type 0 where
  failed_to_list_buildx_builders run_command_failed failed_to_create_builder : DockerCode
  failed_to_build_image failed_to_push_image failed_to_remove_context_dir : DockerCode
  git_context_not_supported : DockerCode
