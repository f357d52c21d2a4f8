-- ===== src/Errors/Knuu.antt =====
-- The error variables of pkg/knuu/errors.go, without the leading `Err`.

pub data KnuuCode : Type 0 where
  bit_twister_failed_to_start creating_instance setting_image : KnuuCode
  committing_instance setting_args setting_memory setting_cpu : KnuuCode
  starting_instance waiting_instance_is_running port_number_out_of_range : KnuuCode
  deploying_service getting_service patching_service : KnuuCode
  failed_to_create_service_account failed_to_create_role : KnuuCode
  failed_to_create_role_binding failed_to_deploy_pod : KnuuCode
  failed_to_delete_pod failed_to_delete_service_account : KnuuCode
  failed_to_delete_role failed_to_delete_role_binding : KnuuCode
  deploying_service_for_instance patching_service_for_instance : KnuuCode
  failed_to_open_file failed_to_read_file failed_to_create_config_map : KnuuCode
  failed_to_delete_config_map failed_to_deploy_or_patch_service : KnuuCode
  deploying_service_for_sidecar patching_service_for_sidecar : KnuuCode
  deploying_volume_for_instance deploying_files_for_instance : KnuuCode
  destroying_volume_for_instance destroying_files_for_instance : KnuuCode
  destroying_service_for_instance checking_network_status_for_instance : KnuuCode
  enabling_network_for_instance generating_uuid getting_free_port : KnuuCode
  src_must_be_set dest_must_be_set chown_must_be_set : KnuuCode
  chown_must_be_in_format_user_group adding_file_to_instance : KnuuCode
  replacing_pod applying_function_to_instance setting_not_allowed : KnuuCode
  creating_otel_collector_instance setting_bit_twister_image : KnuuCode
  adding_bit_twister_port getting_instance_ip : KnuuCode
  committing_bit_twister_instance setting_bit_twister_env : KnuuCode
  creating_bit_twister_instance setting_bit_twister_privileged : KnuuCode
  adding_bit_twister_capability adding_bit_twister_sidecar : KnuuCode
  creating_otel_agent_instance setting_otel_agent_image : KnuuCode
  adding_otel_agent_port setting_otel_agent_cpu : KnuuCode
  setting_otel_agent_memory committing_otel_agent_instance : KnuuCode
  marshaling_yaml adding_otel_agent_config_file : KnuuCode
  setting_otel_agent_command creating_pool_not_allowed : KnuuCode
  generating_k8s_name enabling_bit_twister setting_image_not_allowed : KnuuCode
  creating_builder setting_image_not_allowed_for_sidecars_started : KnuuCode
  setting_git_repo getting_build_context getting_image_name : KnuuCode
  setting_image_not_allowed_for_sidecars setting_command : KnuuCode
  setting_args_not_allowed adding_port_not_allowed : KnuuCode
  port_already_registered random_port_forwarding_not_allowed : KnuuCode
  port_not_registered getting_pod_from_replica_set forwarding_port : KnuuCode
  udp_port_already_registered executing_command_not_allowed : KnuuCode
  executing_command_in_instance executing_command_in_sidecar : KnuuCode
  adding_file_not_allowed src_does_not_exist creating_directory : KnuuCode
  failed_to_create_dest_file failed_to_open_src_file failed_to_copy_file : KnuuCode
  src_does_not_exist_or_is_directory invalid_format : KnuuCode
  failed_to_convert_to_int64 all_files_must_have_same_group : KnuuCode
  adding_folder_not_allowed src_does_not_exist_or_is_not_directory : KnuuCode
  copying_folder_to_instance setting_user_not_allowed setting_user : KnuuCode
  committing_not_allowed getting_image_registry generating_image_hash : KnuuCode
  pushing_image adding_volume_not_allowed setting_memory_not_allowed : KnuuCode
  setting_cpu_not_allowed setting_env_not_allowed : KnuuCode
  getting_service_for_instance getting_service_ip : KnuuCode
  getting_file_not_allowed getting_file reading_file : KnuuCode
  reading_file_not_allowed reading_file_from_instance : KnuuCode
  adding_policy_rule_not_allowed setting_probe_not_allowed : KnuuCode
  adding_sidecar_not_allowed sidecar_is_nil : KnuuCode
  sidecar_cannot_be_same_instance sidecar_not_committed : KnuuCode
  sidecar_cannot_have_sidecar sidecar_already_sidecar : KnuuCode
  setting_privileged_not_allowed adding_capability_not_allowed : KnuuCode
  adding_capabilities_not_allowed starting_not_allowed : KnuuCode
  starting_not_allowed_for_sidecar starting_sidecar_not_allowed : KnuuCode
  adding_otel_collector_sidecar adding_network_sidecar : KnuuCode
  deploying_resources_for_instance deploying_resources_for_sidecars : KnuuCode
  deploying_pod_for_instance waiting_for_instance_running : KnuuCode
  checking_if_instance_running_not_allowed : KnuuCode
  waiting_for_instance_not_allowed waiting_for_instance_timeout : KnuuCode
  checking_if_instance_running disabling_network_not_allowed : KnuuCode
  disabling_network setting_bandwidth_limit_not_allowed : KnuuCode
  setting_bandwidth_limit_not_allowed_bit_twister : KnuuCode
  stopping_bandwidth_limit setting_bandwidth_limit : KnuuCode
  setting_latency_jitter_not_allowed : KnuuCode
  setting_latency_jitter_not_allowed_bit_twister stopping_latency_jitter : KnuuCode
  setting_latency_jitter setting_packet_loss_not_allowed : KnuuCode
  setting_packet_loss_not_allowed_bit_twister stopping_packet_loss : KnuuCode
  setting_packet_loss enabling_network_not_allowed enabling_network : KnuuCode
  checking_if_network_disabled_not_allowed : KnuuCode
  waiting_for_instance_stopped_not_allowed checking_if_instance_stopped : KnuuCode
  stopping_not_allowed destroying_not_allowed destroying_pod : KnuuCode
  destroying_resources_for_instance destroying_resources_for_sidecars : KnuuCode
  cloning_not_allowed cloning_not_allowed_for_sidecar : KnuuCode
  generating_k8s_name_for_sidecar : KnuuCode
  cannot_initialize_knuu_with_empty_scope cannot_initialize_k8s : KnuuCode
  creating_namespace cannot_parse_timeout cannot_handle_timeout : KnuuCode
  invalid_knuu_builder cannot_create_instance cannot_set_image : KnuuCode
  cannot_commit_instance cannot_set_start_command cannot_add_policy_rule : KnuuCode
  cannot_start_instance minio_not_initialized : KnuuCode
  generating_k8s_name_for_preloader cannot_load_env : KnuuCode
  maximum_volumes_exceeded custom_resource_definition_does_not_exist : KnuuCode
  file_is_not_sub_folder_of_volumes cannot_initialize_knuu : KnuuCode
  cannot_deploy_traefik getting_bit_twister_path : KnuuCode
  failed_to_add_host_to_traefik parent_instance_is_nil failed_to_get_ip : KnuuCode
  no_parent_instance adding_to_proxy cannot_get_traefik_endpoint : KnuuCode
  getting_proxy_url traefik_api_not_available scope_not_set : KnuuCode
  k8s_client_not_set scope_mismatch handle_timeout deprecated : KnuuCode
