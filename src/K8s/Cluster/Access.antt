-- ===== src/K8s/Cluster/Access.antt =====
-- networkpolicy.go, role.go, rolebinding.go and serviceaccount.go of pkg/k8s: who may talk to whom, and
-- who may do what.
use knuu.Prelude.{Bool, true, false, if◌then◌else◌, Option, none, some, List, [], ◌∷◌}
use knuu.Prelude.Text.{Text, codes}
use knuu.Errors.{wrapped, is_missing, k8s_code}
use knuu.Errors.Codes.{
  creating_network_policy, deleting_network_policy, getting_network_policy,
  cluster_role_already_exists, cluster_role_binding_already_exists,
}
use knuu.Action.{pure, raise, throw, wrapping, ◌>>◌}
use knuu.Host.{Foreign, PolicyRule, Call}
use knuu.K8s.Types.{Labels}
use knuu.K8s.Objects.{Meta, NetworkPolicy, Subject}
use knuu.K8s.Validate.{
  Validation, validate_network_policy_name, validate_selector_map, validate_role_name,
  validate_labels, validate_policy_rules, validate_cluster_role_name, validate_role_binding_name,
  validate_service_account_name, validate_cluster_role_binding_name, validate_service_name,
}
use knuu.K8s.Cluster.{on_error, check, Client, alive}

abbrev pub meta_of : Text → Text → Labels → Meta
meta_of namespace name labels = record {
  namespace = namespace;
  name = name;
  labels = labels;
  annotations = [];
}

-- A nil map gives no rule.
abbrev pub rules_of : Option Labels → List Labels
rules_of none = []
rules_of (some selector_map) = selector_map ∷ []

abbrev pub account_subject : Text → Text → Subject
account_subject namespace service_account = record {
  kind = codes "ServiceAccount";
  name = service_account;
  namespace = namespace;
}

module _ ⦃f : Foreign⦄ where
  -- _, err := m; return err
  abbrev pub ignore : {A : Type 0} → Call A → Call (Unit {0})
  ignore m = m >> pure tt

  abbrev pub delete_network_policy : Client → Text → Call (Unit {0})
  delete_network_policy c name =
      wrapping (k8s_code deleting_network_policy)
        ((c.clientset.network_policies c.namespace).delete name none)

  abbrev pub get_network_policy : Client → Text → Call NetworkPolicy
  get_network_policy c name =
      wrapping (k8s_code getting_network_policy)
        ((c.clientset.network_policies c.namespace).get name)

  abbrev pub network_policy_exists : Client → Text → Call Bool
  network_policy_exists c name =
      on_error (get_network_policy c name) (λ e. pure false) (λ np. pure true)

  abbrev pub delete_role : Client → Text → Call (Unit {0})
  delete_role c name = (c.clientset.roles c.namespace).delete name none

  abbrev pub delete_cluster_role : Client → Text → Call (Unit {0})
  delete_cluster_role c name = c.clientset.cluster_roles.delete name none

  abbrev pub delete_role_binding : Client → Text → Call (Unit {0})
  delete_role_binding c name = (c.clientset.role_bindings c.namespace).delete name none

  abbrev pub delete_cluster_role_binding : Client → Text → Call (Unit {0})
  delete_cluster_role_binding c name = c.clientset.cluster_role_bindings.delete name none

  abbrev pub delete_service_account : Client → Text → Call (Unit {0})
  delete_service_account c name = do
    alive c
    (c.clientset.service_accounts c.namespace).delete name none

  module _ ⦃v : Validation⦄ where
    unfoldable pub create_network_policy :
        Client → Text → Labels → Option Labels → Option Labels → Call (Unit {0})
    create_network_policy c name selector_map ingress_selector_map egress_selector_map = do
      alive c
      check (validate_network_policy_name name)
      check (validate_selector_map selector_map)
      ignore (
          wrapping (k8s_code creating_network_policy) (
            (c.clientset.network_policies c.namespace).create (record {
              meta = meta_of c.namespace name [];
              pod_selector = selector_map;
              policy_types = codes "Ingress" ∷ codes "Egress" ∷ [];
              ingress = rules_of ingress_selector_map;
              egress = rules_of egress_selector_map;
            })))

    unfoldable pub create_role : Client → Text → Labels → List PolicyRule → Call (Unit {0})
    create_role c name labels policy_rules = do
      alive c
      check (validate_role_name name)
      check (validate_labels labels)
      check (validate_policy_rules policy_rules)
      ignore (
          (c.clientset.roles c.namespace).create
            (record { meta = meta_of c.namespace name labels; rules = policy_rules }))

    unfoldable pub create_cluster_role : Client → Text → Labels → List PolicyRule → Call (Unit {0})
    create_cluster_role c name labels policy_rules = do
      alive c
      check (validate_cluster_role_name name)
      check (validate_labels labels)
      check (validate_policy_rules policy_rules)
      on_error (c.clientset.cluster_roles.get name)
          (λ e.
            if is_missing e
            then ignore (
                c.clientset.cluster_roles.create
                  (record { name = name; labels = labels; rules = policy_rules }))
            else throw (wrapped (k8s_code cluster_role_already_exists) e))
          (λ role. raise (k8s_code cluster_role_already_exists))

    unfoldable pub create_role_binding : Client → Text → Labels → Text → Text → Call (Unit {0})
    create_role_binding c name labels role service_account = do
      alive c
      check (validate_role_binding_name name)
      check (validate_labels labels)
      check (validate_role_name role)
      check (validate_service_account_name service_account)
      ignore (
          (c.clientset.role_bindings c.namespace).create (record {
            meta = meta_of c.namespace name labels;
            role_kind = codes "Role";
            role_name = role;
            subjects = account_subject c.namespace service_account ∷ [];
          }))

    unfoldable pub create_cluster_role_binding :
        Client → Text → Labels → Text → Text → Call (Unit {0})
    create_cluster_role_binding c name labels cluster_role service_account = do
      alive c
      check (validate_cluster_role_binding_name name)
      check (validate_labels labels)
      check (validate_role_name cluster_role)
      check (validate_service_account_name service_account)
      on_error (c.clientset.cluster_role_bindings.get name)
          (λ e.
            if is_missing e
            then ignore (
                c.clientset.cluster_role_bindings.create (record {
                  name = name;
                  labels = labels;
                  role_kind = codes "ClusterRole";
                  role_name = cluster_role;
                  role_api_group = codes "rbac.authorization.k8s.io";
                  subjects = account_subject c.namespace service_account ∷ [];
                }))
            else throw (wrapped (k8s_code cluster_role_binding_already_exists) e))
          (λ binding. raise (k8s_code cluster_role_binding_already_exists))

    unfoldable pub create_service_account : Client → Text → Labels → Call (Unit {0})
    create_service_account c name labels = do
      alive c
      check (validate_service_name name)
      check (validate_labels labels)
      ignore (
          (c.clientset.service_accounts c.namespace).create
            (record { meta = meta_of c.namespace name labels }))
