-- ===== src/K8s/Validate.antt =====
-- validate.go of pkg/k8s: the checks on names, labels and configurations that go before the calls of
-- the cluster. A verdict is the code of the error, `none` for nil. Go walks a map in any order; here it
-- is walked in the order of the list. The two checks of custom resources on schema and object are in
-- K8s.Cluster.Custom.
pub mod Meaning
use knuu.Prelude.{
  ℕ, ◌+◌, ltb, Bool, true, false, not, ◌||◌, ◌&&◌, Option, none, some, List, [], ◌∷◌, if◌then◌else◌,
}
use knuu.Prelude.Text.{Text, is_empty}
use knuu.Prelude.Int.{ℤ, pos, ltb_ℤ}
use knuu.Errors.Codes.{
  K8sCode, invalid_namespace_name, invalid_config_map_name, invalid_label_key, invalid_label_value,
  invalid_config_map_key, invalid_custom_resource_name, invalid_daemon_set_name,
  invalid_network_policy_name, invalid_pod_name, invalid_container_name, empty_command,
  invalid_port, invalid_pod_annotation_key, annotation_value_too_large, container_image_empty,
  volume_path_empty, volume_size_zero, file_source_dest_empty, invalid_pvc_name, pvc_size_zero,
  invalid_replica_set_name, replica_set_replicas_negative, invalid_role_name, policy_rule_no_verbs,
  policy_rule_verb_empty, policy_rule_no_resources, invalid_cluster_role_name,
  invalid_role_binding_name, invalid_service_account_name, invalid_cluster_role_binding_name,
  invalid_service_name,
}
use knuu.Host.{Foreign, PolicyRule}
use knuu.K8s.Types.{
  Labels, File, Volume, ContainerConfig, PodConfig, ReplicaSetConfig, ServiceOptions,
}
use knuu.K8s.Objects.{Container}

-- k8s.io/apimachinery/pkg/util/validation: each returns what is wrong with its argument.
pub record Validation : Type 0 where
  pub is_dns1123_label : Text → List Text
  pub is_dns1123_subdomain : Text → List Text
  pub is_qualified_name : Text → List Text
  pub is_valid_label_value : Text → List Text
  pub is_config_map_key : Text → List Text

abbrev pub Verdict : Type 0
Verdict = Option K8sCode

-- if err := a; err != nil { return err }, and then b.
infixr 4 ◌⨾◌
abbrev pub ◌⨾◌ : Verdict → Verdict → Verdict
none ⨾ b = b
some c ⨾ b = some c

abbrev pub fails_if : Bool → K8sCode → Verdict
fails_if true c = some c
fails_if false c = none

abbrev pub is_nil {ℓ} : {A : Type ℓ} → List A → Bool
is_nil [] = true
is_nil (x ∷ xs) = false

-- if errs := f(x); len(errs) > 0 { return err }
abbrev pub no_errors : List Text → K8sCode → Verdict
no_errors errs c = fails_if (not (is_nil errs)) c

-- for _, x := range xs { if err := f(x); err != nil { return err } }
abbrev pub all_of {ℓ} : {A : Type ℓ} → (A → Verdict) → List A → Verdict
all_of g [] = none
all_of g (x ∷ xs) = g x ⨾ all_of g xs

-- len of a string: the bytes of its UTF-8 form.
abbrev pub utf8_length : ℕ → ℕ
utf8_length c = if ltb c 0x80 then 1 else if ltb c 0x800 then 2 else if ltb c 0x10000 then 3 else 4

abbrev pub byte_length : Text → ℕ
byte_length [] = 0
byte_length (c ∷ s) = utf8_length c + byte_length s

abbrev pub max_annotation_bytes : ℕ
max_annotation_bytes = 256000

abbrev pub validate_port : ℤ → Verdict
validate_port port = fails_if (ltb_ℤ port (pos 1) || ltb_ℤ (pos 65535) port) invalid_port

abbrev pub validate_ports : List ℤ → Verdict
validate_ports ports = all_of validate_port ports

abbrev pub validate_command : List Text → Verdict
validate_command cmd = fails_if (is_nil cmd) empty_command

abbrev pub validate_file : File → Verdict
validate_file file = fails_if (is_empty file.source || is_empty file.dest) file_source_dest_empty

abbrev pub validate_policy_rule : PolicyRule → Verdict
validate_policy_rule rule =
    fails_if (is_nil rule.verbs) policy_rule_no_verbs
    ⨾ all_of (λ verb. fails_if (is_empty verb) policy_rule_verb_empty) rule.verbs
    ⨾ fails_if (is_nil rule.resources && is_nil rule.non_resource_urls) policy_rule_no_resources

abbrev pub validate_policy_rules : List PolicyRule → Verdict
validate_policy_rules rules = all_of validate_policy_rule rules

module _ ⦃f : Foreign⦄ where
  abbrev pub validate_volume : Volume → Verdict
  validate_volume volume =
      fails_if (is_empty volume.path) volume_path_empty
      ⨾ fails_if (not (ltb_ℤ (pos 0) (f.quantity_value volume.size))) volume_size_zero

  abbrev pub validate_pvc_size : f.Quantity → Verdict
  validate_pvc_size size = fails_if (not (ltb_ℤ (pos 0) (f.quantity_value size))) pvc_size_zero

module _ ⦃v : Validation⦄ where
  abbrev pub validate_dns1123_label : Text → K8sCode → Verdict
  validate_dns1123_label name c = no_errors (v.is_dns1123_label name) c

  abbrev pub validate_dns1123_subdomain : Text → K8sCode → Verdict
  validate_dns1123_subdomain name c = no_errors (v.is_dns1123_subdomain name) c

  abbrev pub validate_namespace : Text → Verdict
  validate_namespace name = validate_dns1123_label name invalid_namespace_name

  abbrev pub validate_service_name : Text → Verdict
  validate_service_name name = validate_dns1123_label name invalid_service_name

  abbrev pub validate_container_name : Text → Verdict
  validate_container_name name = validate_dns1123_label name invalid_container_name

  abbrev pub validate_pod_name : Text → Verdict
  validate_pod_name name = validate_dns1123_subdomain name invalid_pod_name

  abbrev pub validate_replica_set_name : Text → Verdict
  validate_replica_set_name name = validate_dns1123_subdomain name invalid_replica_set_name

  abbrev pub validate_config_map_name : Text → Verdict
  validate_config_map_name name = validate_dns1123_subdomain name invalid_config_map_name

  abbrev pub validate_label : Text × Text → Verdict
  validate_label (key, value) =
      no_errors (v.is_qualified_name key) invalid_label_key
      ⨾ no_errors (v.is_valid_label_value value) invalid_label_value

  abbrev pub validate_labels : Labels → Verdict
  validate_labels labels = all_of validate_label labels

  abbrev pub validate_daemon_set_name : Text → Verdict
  validate_daemon_set_name name = validate_dns1123_subdomain name invalid_daemon_set_name

  abbrev pub validate_custom_resource_name : Text → Verdict
  validate_custom_resource_name name = validate_dns1123_subdomain name invalid_custom_resource_name

  abbrev pub validate_network_policy_name : Text → Verdict
  validate_network_policy_name name = validate_dns1123_subdomain name invalid_network_policy_name

  abbrev pub validate_pvc_name : Text → Verdict
  validate_pvc_name name = validate_dns1123_subdomain name invalid_pvc_name

  abbrev pub validate_role_name : Text → Verdict
  validate_role_name name = validate_dns1123_subdomain name invalid_role_name

  abbrev pub validate_cluster_role_name : Text → Verdict
  validate_cluster_role_name name = validate_dns1123_subdomain name invalid_cluster_role_name

  abbrev pub validate_role_binding_name : Text → Verdict
  validate_role_binding_name name = validate_dns1123_subdomain name invalid_role_binding_name

  abbrev pub validate_service_account_name : Text → Verdict
  validate_service_account_name name = validate_dns1123_subdomain name invalid_service_account_name

  abbrev pub validate_cluster_role_binding_name : Text → Verdict
  validate_cluster_role_binding_name name =
      validate_dns1123_subdomain name invalid_cluster_role_binding_name

  abbrev pub validate_selector_map : Labels → Verdict
  validate_selector_map selector_map = validate_labels selector_map

  abbrev pub validate_config_map_keys : Labels → Verdict
  validate_config_map_keys contents =
      all_of (λ (key, value). no_errors (v.is_config_map_key key) invalid_config_map_key) contents

  abbrev pub validate_config_map : Text → Labels → Labels → Verdict
  validate_config_map name labels contents =
      validate_config_map_name name ⨾ validate_labels labels ⨾ validate_config_map_keys contents

  abbrev pub validate_annotation : Text × Text → Verdict
  validate_annotation (key, value) =
      no_errors (v.is_qualified_name key) invalid_pod_annotation_key
      ⨾ fails_if (ltb max_annotation_bytes (byte_length value)) annotation_value_too_large

  abbrev pub validate_pod_annotations : Labels → Verdict
  validate_pod_annotations annotations = all_of validate_annotation annotations

  module _ ⦃f : Foreign⦄ where
    abbrev pub validate_container_config : ContainerConfig → Verdict
    validate_container_config config =
        fails_if (is_empty config.image) container_image_empty
        ⨾ all_of validate_volume config.volumes
        ⨾ all_of validate_file config.files
        ⨾ validate_container_name config.name

    abbrev pub validate_containers : List Container → Verdict
    validate_containers containers =
        all_of (λ container. validate_container_name container.name) containers

    abbrev pub validate_pod_config : PodConfig → Verdict
    validate_pod_config config =
        validate_pod_name config.name
        ⨾ validate_namespace config.namespace
        ⨾ validate_labels config.labels
        ⨾ validate_pod_annotations config.annotations
        ⨾ validate_container_config config.container_config
        ⨾ all_of validate_container_config config.sidecar_configs

    abbrev pub validate_replica_set_config : ReplicaSetConfig → Verdict
    validate_replica_set_config config =
        validate_replica_set_name config.name
        ⨾ validate_namespace config.namespace
        ⨾ validate_labels config.labels
        ⨾ fails_if (ltb_ℤ config.replicas (pos 0)) replica_set_replicas_negative
        ⨾ validate_pod_config config.pod_config

    abbrev pub validate_service_options : ServiceOptions → Verdict
    validate_service_options options =
        validate_labels options.labels
        ⨾ validate_ports options.tcp_ports
        ⨾ validate_ports options.udp_ports
        ⨾ validate_selector_map options.selector_map
