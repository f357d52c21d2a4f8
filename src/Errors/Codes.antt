-- ===== src/Errors/Codes.antt =====
-- The error variables of errors.go of pkg/instance, pkg/k8s, pkg/container, pkg/builder and
-- pkg/preloader, without the leading `Err`.

pub data InstanceCode : Type 0 where
  bit_twister_failed_to_start creating_instance setting_image committing_instance : InstanceCode
  setting_args setting_memory setting_cpu starting_instance : InstanceCode
  waiting_instance_is_running port_number_out_of_range deploying_service : InstanceCode
  getting_service patching_service failed_to_create_service_account : InstanceCode
  failed_to_create_role failed_to_create_role_binding failed_to_deploy_pod : InstanceCode
  failed_to_delete_pod failed_to_delete_service_account failed_to_delete_role : InstanceCode
  failed_to_delete_role_binding deploying_service_for_instance : InstanceCode
  patching_service_for_instance failed_to_open_file failed_to_read_file : InstanceCode
  failed_to_create_config_map failed_to_delete_config_map : InstanceCode
  failed_to_deploy_or_patch_service deploying_service_for_sidecar : InstanceCode
  patching_service_for_sidecar deploying_volume_for_instance : InstanceCode
  deploying_files_for_instance destroying_volume_for_instance : InstanceCode
  destroying_files_for_instance destroying_service_for_instance : InstanceCode
  checking_network_status_for_instance enabling_network_for_instance : InstanceCode
  generating_uuid getting_free_port src_must_be_set dest_must_be_set : InstanceCode
  chown_must_be_set chown_must_be_in_format_user_group adding_file_to_instance : InstanceCode
  replacing_pod applying_function_to_instance setting_not_allowed : InstanceCode
  creating_otel_collector_instance setting_bit_twister_image : InstanceCode
  adding_bit_twister_port getting_instance_ip committing_bit_twister_instance : InstanceCode
  setting_bit_twister_env creating_bit_twister_instance : InstanceCode
  setting_bit_twister_privileged adding_bit_twister_capability : InstanceCode
  adding_bit_twister_sidecar creating_otel_agent_instance : InstanceCode
  setting_otel_agent_image adding_otel_agent_port setting_otel_agent_cpu : InstanceCode
  adding_otel_agent_volume setting_otel_agent_memory : InstanceCode
  committing_otel_agent_instance marshaling_yaml adding_otel_agent_config_file : InstanceCode
  setting_otel_agent_command creating_pool_not_allowed generating_k8s_name : InstanceCode
  enabling_bit_twister setting_image_not_allowed creating_builder : InstanceCode
  setting_image_not_allowed_for_sidecars_started setting_git_repo : InstanceCode
  getting_build_context getting_image_name getting_build_dir : InstanceCode
  setting_image_not_allowed_for_sidecars setting_command setting_args_not_allowed : InstanceCode
  adding_port_not_allowed port_already_registered : InstanceCode
  random_port_forwarding_not_allowed port_not_registered : InstanceCode
  getting_pod_from_replica_set forwarding_port udp_port_already_registered : InstanceCode
  executing_command_not_allowed adding_command_not_allowed : InstanceCode
  executing_command_in_instance executing_command_in_sidecar : InstanceCode
  adding_file_not_allowed src_does_not_exist creating_directory : InstanceCode
  failed_to_create_dest_file failed_to_open_src_file failed_to_get_src_file_info : InstanceCode
  failed_to_copy_file failed_to_set_permissions : InstanceCode
  src_does_not_exist_or_is_directory invalid_format failed_to_convert_to_int64 : InstanceCode
  all_files_must_have_same_group adding_folder_not_allowed : InstanceCode
  src_does_not_exist_or_is_not_directory copying_folder_to_instance : InstanceCode
  setting_user_not_allowed setting_node_selector_not_allowed setting_user : InstanceCode
  committing_not_allowed getting_image_registry generating_image_hash : InstanceCode
  pushing_image adding_volume_not_allowed setting_memory_not_allowed : InstanceCode
  setting_cpu_not_allowed setting_env_not_allowed getting_service_for_instance : InstanceCode
  getting_service_ip getting_file_not_allowed getting_file reading_file : InstanceCode
  reading_file_not_allowed reading_file_from_instance : InstanceCode
  adding_policy_rule_not_allowed setting_probe_not_allowed : InstanceCode
  adding_sidecar_not_allowed sidecar_is_nil sidecar_cannot_be_same_instance : InstanceCode
  sidecar_not_committed sidecar_cannot_have_sidecar sidecar_already_sidecar : InstanceCode
  setting_privileged_not_allowed adding_capability_not_allowed : InstanceCode
  adding_capabilities_not_allowed starting_not_allowed : InstanceCode
  starting_not_allowed_for_sidecar starting_sidecar_not_allowed : InstanceCode
  adding_otel_collector_sidecar adding_network_sidecar : InstanceCode
  deploying_resources_for_instance deploying_resources_for_sidecars : InstanceCode
  deploying_pod_for_instance waiting_for_instance_running : InstanceCode
  checking_if_instance_running_not_allowed waiting_for_instance_not_allowed : InstanceCode
  waiting_for_instance_timeout checking_if_instance_running : InstanceCode
  disabling_network_not_allowed disabling_network : InstanceCode
  setting_bandwidth_limit_not_allowed : InstanceCode
  setting_bandwidth_limit_not_allowed_bit_twister stopping_bandwidth_limit : InstanceCode
  setting_bandwidth_limit setting_latency_jitter_not_allowed : InstanceCode
  setting_latency_jitter_not_allowed_bit_twister stopping_latency_jitter : InstanceCode
  setting_latency_jitter setting_packet_loss_not_allowed : InstanceCode
  setting_packet_loss_not_allowed_bit_twister stopping_packet_loss : InstanceCode
  setting_packet_loss enabling_network_not_allowed enabling_network : InstanceCode
  checking_if_network_disabled_not_allowed : InstanceCode
  waiting_for_instance_stopped_not_allowed checking_if_instance_stopped : InstanceCode
  stopping_not_allowed destroying_not_allowed destroying_pod : InstanceCode
  destroying_resources_for_instance destroying_resources_for_sidecars : InstanceCode
  cloning_not_allowed cloning_not_allowed_for_sidecar : InstanceCode
  generating_k8s_name_for_sidecar cannot_initialize_knuu_with_empty_scope : InstanceCode
  cannot_initialize_k8s creating_namespace cannot_parse_timeout : InstanceCode
  cannot_handle_timeout invalid_knuu_builder cannot_create_instance : InstanceCode
  cannot_set_image cannot_commit_instance cannot_set_start_command : InstanceCode
  cannot_add_policy_rule cannot_start_instance minio_not_initialized : InstanceCode
  generating_k8s_name_for_preloader cannot_load_env maximum_volumes_exceeded : InstanceCode
  custom_resource_definition_does_not_exist file_is_not_sub_folder_of_volumes : InstanceCode
  cannot_initialize_knuu adding_to_proxy getting_proxy_url proxy_not_initialized : InstanceCode
  check_failed context_canceled bit_twister_client_is_nil : InstanceCode
  tshark_collector_already_enabled creating_tshark_collector_instance : InstanceCode
  adding_tshark_collector_sidecar tshark_collector_config_not_set : InstanceCode
  tshark_collector_invalid_volume_size tshark_collector_invalid_s3_access_key : InstanceCode
  tshark_collector_invalid_s3_secret_key : InstanceCode
  tshark_collector_s3_region_or_bucket_empty regexp_compile : InstanceCode
  applying_function_to_sidecar initializing_sidecar sidecar_instance_is_nil : InstanceCode
  failed_to_create_persistent_volume_claim : InstanceCode
  failed_to_delete_persistent_volume_claim upgrading_image_not_allowed : InstanceCode
  adding_host_to_proxy_not_allowed instance_name_already_exists : InstanceCode
  setting_sidecar_name getting_service_endpoint_not_allowed cannot_clone_instance : InstanceCode
  getting_ip_not_allowed pod_ip_not_ready failed_to_get_file_size : InstanceCode
  file_too_large_committed total_files_size_too_large : InstanceCode
  failed_to_check_persistent_volume_claim : InstanceCode

pub data K8sCode : Type 0 where
  knuu_not_initialized getting_configmap configmap_already_exists creating_configmap : K8sCode
  configmap_does_not_exist deleting_configmap getting_daemonset creating_daemonset : K8sCode
  updating_daemonset deleting_daemonset creating_namespace deleting_namespace : K8sCode
  getting_namespace creating_network_policy deleting_network_policy : K8sCode
  getting_network_policy getting_pod preparing_pod creating_pod deleting_pod : K8sCode
  deploying_pod getting_k8s_config creating_executor executing_command : K8sCode
  command_execution deleting_pod_failed parsing_memory_request parsing_memory_limit : K8sCode
  parsing_cpu_request building_container_volumes building_resources : K8sCode
  building_init_container_volumes building_init_container_command building_pod_volumes : K8sCode
  preparing_main_container preparing_init_container preparing_pod_volumes : K8sCode
  preparing_sidecar_container preparing_sidecar_volumes creating_pod_spec : K8sCode
  getting_cluster_config creating_round_tripper creating_port_forwarder : K8sCode
  port_forwarding forwarding_ports port_forwarding_timeout : K8sCode
  deleting_persistent_volume_claim creating_persistent_volume_claim : K8sCode
  getting_replica_set creating_replica_set deleting_replica_set : K8sCode
  checking_replica_set_exists waiting_for_replica_set deploying_replica_set : K8sCode
  preparing_pod_spec listing_pods_for_replica_set no_pods_for_replica_set : K8sCode
  getting_service preparing_service creating_service patching_service deleting_service : K8sCode
  namespace_required service_name_required no_ports_specified : K8sCode
  retrieving_kubernetes_config creating_clientset creating_discovery_client : K8sCode
  creating_dynamic_client getting_resource_list resource_does_not_exist : K8sCode
  creating_custom_resource creating_role creating_role_binding : K8sCode
  creating_role_binding_failed node_port_not_set external_i_ps_not_set : K8sCode
  getting_service_endpoint timeout_waiting_for_service_ready : K8sCode
  load_balancer_ip_not_available getting_nodes no_nodes_found failed_to_connect : K8sCode
  waiting_for_deployment cluster_role_already_exists : K8sCode
  cluster_role_binding_already_exists create_endpoint get_endpoint update_endpoint : K8sCode
  checking_service_ready waiting_for_pod_deletion waiting_for_replica_set_deletion : K8sCode
  invalid_namespace_name invalid_config_map_name invalid_label_key invalid_label_value : K8sCode
  invalid_config_map_key invalid_custom_resource_name invalid_group_version_resource : K8sCode
  custom_resource_object_nil custom_resource_object_no_spec invalid_daemon_set_name : K8sCode
  invalid_container_name invalid_network_policy_name invalid_pod_name empty_command : K8sCode
  invalid_port invalid_pod_annotation_key annotation_value_too_large : K8sCode
  container_image_empty volume_path_empty volume_size_zero file_source_dest_empty : K8sCode
  invalid_pvc_name pvc_size_zero invalid_replica_set_name : K8sCode
  replica_set_replicas_negative invalid_role_name policy_rule_no_verbs : K8sCode
  policy_rule_verb_empty policy_rule_no_resources invalid_cluster_role_name : K8sCode
  invalid_role_binding_name invalid_service_account_name : K8sCode
  invalid_cluster_role_binding_name invalid_service_name client_terminated : K8sCode
  listing_pods get_pod_status updating_configmap getting_service_ip : K8sCode
  getting_service_node_port headless_service cannot_connect_to_headless_service : K8sCode
  getting_pods_for_service no_ports_found_for_load_balancer_service : K8sCode
  no_node_port_found_for_service no_ports_found_for_service no_valid_node_ip_found : K8sCode
  invalid_cluster_domain : K8sCode

pub data ContainerCode : Type 0 where
  creating_docker_client failed_to_create_context_dir no_image_name_provided : ContainerCode
  failed_to_create_container failed_to_stop_container failed_to_remove_container : ContainerCode
  failed_to_start_container failed_to_copy_file_from_container : ContainerCode
  failed_to_read_from_tar failed_to_read_file_from_tar file_not_found_in_tar : ContainerCode
  failed_to_write_dockerfile failed_to_get_build_context : ContainerCode
  failed_to_get_default_cache_options hashing_dockerfile reading_file : ContainerCode
  hashing_file hashing_build_context image_name_empty build_context_empty : ContainerCode
  image_builder_not_set logger_empty : ContainerCode

pub data BuilderCode : Type 0 where
  build_context_empty : BuilderCode

pub data PreloaderCode : Type 0 where
  preloader_name_already_exists : PreloaderCode
