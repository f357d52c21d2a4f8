-- ===== src/K8s/Cluster/Refusal.antt =====
-- The requests of pkg/k8s that make or change objects after checks of its own, and what becomes of
-- those that are refused. UpdateDaemonSet is left out: it does not look whether the client is
-- terminated. So are the functions that delete.
use knuu.Prelude.{◌≡◌, refl, sym, ap, ◌∙◌, Bool, true, false, Option, none, some, List, [], ◌∷◌}
use knuu.Prelude.Text.{Text}
use knuu.Errors.{Error, raised, wrapped, err, k8s_code}
use knuu.Errors.Codes.{
  K8sCode, client_terminated, updating_configmap, invalid_config_map_name, invalid_label_key,
  invalid_label_value, invalid_config_map_key,
}
use knuu.Action.{throw}
use knuu.Action.Stops.{bind_of_err}
use knuu.Host.{Foreign, Os, PolicyRule, Call}
use knuu.K8s.Types.{Labels, ServiceOptions, PodConfig, ReplicaSetConfig}
use knuu.K8s.Objects.{Container}
use knuu.K8s.Validate.{
  Validation, Verdict, ◌⨾◌, fails_if, no_errors, all_of, validate_namespace, validate_config_map,
  validate_network_policy_name, validate_selector_map, validate_role_name, validate_labels,
  validate_policy_rules, validate_cluster_role_name, validate_role_binding_name,
  validate_service_account_name, validate_cluster_role_binding_name, validate_service_name,
  validate_pvc_name, validate_pvc_size, validate_service_options, validate_pod_config,
  validate_replica_set_config, validate_daemon_set_name, validate_custom_resource_name,
  validate_containers, validate_config_map_keys,
}
use knuu.K8s.Cluster.{is_config_map_missing, Client}
use knuu.K8s.Cluster.Outcomes.{last, first, on_error_of_err}
use knuu.K8s.Cluster.Namespaces.{create_namespace}
use knuu.K8s.Cluster.ConfigMaps.{create_config_map, update_config_map, create_or_update_config_map}
use knuu.K8s.Cluster.Access.{
  ignore, create_network_policy, create_role, create_cluster_role, create_role_binding,
  create_cluster_role_binding, create_service_account,
}
use knuu.K8s.Cluster.Volumes.{create_persistent_volume_claim}
use knuu.K8s.Cluster.Services.{create_service, patch_service}
use knuu.K8s.Cluster.Workloads.{deploy_pod, create_replica_set}
use knuu.K8s.Cluster.Daemons.{create_daemon_set}
use knuu.K8s.Custom.{GroupVersionResource, Fields}
use knuu.K8s.Cluster.Custom.{
  validate_group_version_resource, validate_custom_resource_object, create_custom_resource,
}

-- A code by which errors.Is does not take an error for that of a missing config map.
abbrev Ordinary : K8sCode → Type 0
Ordinary code = is_config_map_missing (raised (k8s_code code)) ≡ false

abbrev OrdinaryVerdict : Verdict → Type 0
OrdinaryVerdict none = Unit
OrdinaryVerdict (some code) = Ordinary code

seq-Ordinary : (v w : Verdict) → OrdinaryVerdict v → OrdinaryVerdict w → OrdinaryVerdict (v ⨾ w)
seq-Ordinary none w h h' = h'
seq-Ordinary (some code) w h h' = h

errors-Ordinary :
    (errs : List Text) (code : K8sCode) → Ordinary code → OrdinaryVerdict (no_errors errs code)
errors-Ordinary [] code h = tt
errors-Ordinary (e ∷ errs) code h = h

fails-Ordinary : (b : Bool) → OrdinaryVerdict (fails_if b client_terminated)
fails-Ordinary true = refl
fails-Ordinary false = tt

all_of-Ordinary :
    {A : Type 0} (g : A → Verdict)
    → ((a : A) → OrdinaryVerdict (g a))
    → (xs : List A) → OrdinaryVerdict (all_of g xs)
all_of-Ordinary g every [] = tt
all_of-Ordinary g every (x ∷ xs) =
    seq-Ordinary (g x) (all_of g xs) (every x) (all_of-Ordinary g every xs)

Ordinary-code : (v : Verdict) (code : K8sCode) → v ≡ some code → OrdinaryVerdict v → Ordinary code
Ordinary-code none code e h = absurd cc
Ordinary-code (some d) code e h =
    ap
      (λ o.
        is_config_map_missing
          (elim o [ none ↦ raised (k8s_code code) | some d ↦ raised (k8s_code d) ]))
      (sym e)
    ∙ h

module _ ⦃f : Foreign⦄ where
  pub data Request : Type 0 where
    new_namespace : Text → Request
    new_config_map change_config_map put_config_map : Text → Labels → Labels → Request
    new_network_policy : Text → Labels → Option Labels → Option Labels → Request
    new_role new_cluster_role : Text → Labels → List PolicyRule → Request
    new_role_binding new_cluster_role_binding : Text → Labels → Text → Text → Request
    new_service_account : Text → Labels → Request
    new_volume_claim : Text → Labels → f.Quantity → Request
    new_service change_service : Text → ServiceOptions → Request
    new_pod : PodConfig → Bool → Request
    new_replica_set : ReplicaSetConfig → Bool → Request
    new_daemon_set : Text → Labels → List Container → List Container → Request
    new_custom_resource : Text → GroupVersionResource → Option Fields → Request

  -- A refused config map comes back from CreateOrUpdateConfigMap inside another error.
  abbrev pub refusal_error : Request → K8sCode → Error
  refusal_error (put_config_map name labels contents) code =
      wrapped (k8s_code updating_configmap) (raised (k8s_code code))
  refusal_error _ code = raised (k8s_code code)

  module _ ⦃v : Validation⦄ where
    -- The checks of a request, in their order.
    abbrev pub verdict : Request → Verdict
    verdict (new_namespace name) = validate_namespace name
    verdict (new_config_map name labels contents) = validate_config_map name labels contents
    verdict (change_config_map name labels contents) = validate_config_map name labels contents
    verdict (put_config_map name labels contents) = validate_config_map name labels contents
    verdict (new_network_policy name selector ingress egress) =
        validate_network_policy_name name ⨾ validate_selector_map selector
    verdict (new_role name labels rules) =
        validate_role_name name ⨾ validate_labels labels ⨾ validate_policy_rules rules
    verdict (new_cluster_role name labels rules) =
        validate_cluster_role_name name ⨾ validate_labels labels ⨾ validate_policy_rules rules
    verdict (new_role_binding name labels role account) =
        validate_role_binding_name name
        ⨾ validate_labels labels
        ⨾ validate_role_name role
        ⨾ validate_service_account_name account
    verdict (new_cluster_role_binding name labels role account) =
        validate_cluster_role_binding_name name
        ⨾ validate_labels labels
        ⨾ validate_role_name role
        ⨾ validate_service_account_name account
    verdict (new_service_account name labels) = validate_service_name name ⨾ validate_labels labels
    verdict (new_volume_claim name labels size) =
        validate_pvc_name name ⨾ validate_pvc_size size ⨾ validate_labels labels
    verdict (new_service name opts) = validate_service_name name ⨾ validate_service_options opts
    verdict (change_service name opts) = validate_service_name name ⨾ validate_service_options opts
    verdict (new_pod config init) = validate_pod_config config
    verdict (new_replica_set config init) = validate_replica_set_config config
    verdict (new_daemon_set name labels init_containers containers) =
        validate_daemon_set_name name ⨾ validate_labels labels ⨾ validate_containers containers
    verdict (new_custom_resource name gvr obj) =
        validate_custom_resource_name name
        ⨾ validate_group_version_resource gvr
        ⨾ validate_custom_resource_object obj

    -- Why a client refuses a request, if it does.
    abbrev pub refusal : Client → Request → Verdict
    refusal c r = fails_if c.terminated client_terminated ⨾ verdict r

    config_map-Ordinary :
        (name : Text) (labels contents : Labels)
        → OrdinaryVerdict (validate_config_map name labels contents)
    config_map-Ordinary name labels contents =
        seq-Ordinary _ _
          (errors-Ordinary (v.is_dns1123_subdomain name) invalid_config_map_name refl)
          (seq-Ordinary (validate_labels labels) (validate_config_map_keys contents)
            (all_of-Ordinary _
              (λ (key, value).
                seq-Ordinary (no_errors (v.is_qualified_name key) invalid_label_key)
                  (no_errors (v.is_valid_label_value value) invalid_label_value)
                  (errors-Ordinary (v.is_qualified_name key) invalid_label_key refl)
                  (errors-Ordinary (v.is_valid_label_value value) invalid_label_value refl))
              labels)
            (all_of-Ordinary _
              (λ (key, value).
                errors-Ordinary (v.is_config_map_key key) invalid_config_map_key refl)
              contents))

    put_refused :
        (c : Client) (name : Text) (labels contents : Labels) (code : K8sCode) (s : f.Outside)
        → (fails_if c.terminated client_terminated ⨾ validate_config_map name labels contents)
          ≡ some code
        → create_or_update_config_map c name labels contents s
          ≡ (s, err (wrapped (k8s_code updating_configmap) (raised (k8s_code code))))
    unfolding create_or_update_config_map update_config_map throw
    put_refused c name labels contents code s h =
        let refused : update_config_map c name labels contents s
            ≡ (s, err (raised (k8s_code code))) =
          first code _ s _ _ h λ h1. last code _ s _ h1 in
        let ordinary : Ordinary code = Ordinary-code _ code h (
          seq-Ordinary _ _ (fails-Ordinary c.terminated)
            (config_map-Ordinary name labels contents)) in
        on_error_of_err _ _ _ s s _ refused ∙ rw ordinary refl

    module _ ⦃o : Os⦄ where
      unfoldable pub send : Client → Request → Call (Unit {0})
      unfolding create_namespace create_config_map update_config_map create_or_update_config_map
          create_network_policy create_role create_cluster_role create_role_binding
          create_cluster_role_binding create_service_account create_persistent_volume_claim
          create_service patch_service deploy_pod create_replica_set create_daemon_set
          create_custom_resource
      send c (new_namespace name) = create_namespace c name
      send c (new_config_map name labels contents) =
          ignore (create_config_map c name labels contents)
      send c (change_config_map name labels contents) =
          ignore (update_config_map c name labels contents)
      send c (put_config_map name labels contents) =
          ignore (create_or_update_config_map c name labels contents)
      send c (new_network_policy name selector ingress egress) =
          create_network_policy c name selector ingress egress
      send c (new_role name labels rules) = create_role c name labels rules
      send c (new_cluster_role name labels rules) = create_cluster_role c name labels rules
      send c (new_role_binding name labels role account) =
          create_role_binding c name labels role account
      send c (new_cluster_role_binding name labels role account) =
          create_cluster_role_binding c name labels role account
      send c (new_service_account name labels) = create_service_account c name labels
      send c (new_volume_claim name labels size) = create_persistent_volume_claim c name labels size
      send c (new_service name opts) = ignore (create_service c name opts)
      send c (change_service name opts) = ignore (patch_service c name opts)
      send c (new_pod config init) = ignore (deploy_pod c config init)
      send c (new_replica_set config init) = ignore (create_replica_set c config init)
      send c (new_daemon_set name labels init_containers containers) =
          ignore (create_daemon_set c name labels init_containers containers)
      send c (new_custom_resource name gvr obj) = create_custom_resource c name gvr obj

      module _ (c : Client) (code : K8sCode) (s : f.Outside) where
        ignored : {A : Type 0} (m : Call A) (e : Error) → m s ≡ (s, err e) → ignore m s ≡ (s, err e)
        ignored m e h = bind_of_err m _ s s e h

        -- A request that the client refuses changes nothing outside and returns its error.
        pub send_refused :
            (r : Request) → refusal c r ≡ some code → send c r s ≡ (s, err (refusal_error r code))
        unfolding send
        send_refused (new_namespace name) h = first code _ s _ _ h λ h1. last code _ s _ h1
        send_refused (new_config_map name labels contents) h =
            ignored _ _ (first code _ s _ _ h λ h1. last code _ s _ h1)
        send_refused (change_config_map name labels contents) h =
            ignored _ _ (first code _ s _ _ h λ h1. last code _ s _ h1)
        send_refused (put_config_map name labels contents) h =
            ignored _ _ (put_refused c name labels contents code s h)
        send_refused (new_network_policy name selector ingress egress) h =
            first code _ s _ _ h λ h1. first code _ s _ _ h1 λ h2. last code _ s _ h2
        send_refused (new_role name labels rules) h =
            first code _ s _ _ h
              λ h1. first code _ s _ _ h1 λ h2. first code _ s _ _ h2 λ h3. last code _ s _ h3
        send_refused (new_cluster_role name labels rules) h =
            first code _ s _ _ h
              λ h1. first code _ s _ _ h1 λ h2. first code _ s _ _ h2 λ h3. last code _ s _ h3
        send_refused (new_role_binding name labels role account) h = first code _ s _ _ h λ h1.
            first code _ s _ _ h1
              λ h2. first code _ s _ _ h2 λ h3. first code _ s _ _ h3 λ h4. last code _ s _ h4
        send_refused (new_cluster_role_binding name labels role account) h =
            first code _ s _ _ h λ h1.
              first code _ s _ _ h1
                λ h2. first code _ s _ _ h2 λ h3. first code _ s _ _ h3 λ h4. last code _ s _ h4
        send_refused (new_service_account name labels) h =
            first code _ s _ _ h λ h1. first code _ s _ _ h1 λ h2. last code _ s _ h2
        send_refused (new_volume_claim name labels size) h =
            first code _ s _ _ h
              λ h1. first code _ s _ _ h1 λ h2. first code _ s _ _ h2 λ h3. last code _ s _ h3
        send_refused (new_service name opts) h =
            ignored _ _ (first code _ s _ _ h λ h1. first code _ s _ _ h1 λ h2. last code _ s _ h2)
        send_refused (change_service name opts) h =
            ignored _ _ (first code _ s _ _ h λ h1. first code _ s _ _ h1 λ h2. last code _ s _ h2)
        send_refused (new_pod config init) h =
            ignored _ _ (first code _ s _ _ h λ h1. last code _ s _ h1)
        send_refused (new_replica_set config init) h =
            ignored _ _ (first code _ s _ _ h λ h1. last code _ s _ h1)
        send_refused (new_daemon_set name labels init_containers containers) h = ignored _ _ (
            first code _ s _ _ h
              λ h1. first code _ s _ _ h1 λ h2. first code _ s _ _ h2 λ h3. last code _ s _ h3)
        send_refused (new_custom_resource name gvr obj) h =
            first code _ s _ _ h
              λ h1. first code _ s _ _ h1 λ h2. first code _ s _ _ h2 λ h3. last code _ s _ h3
