-- ===== src/K8s/Cluster/Namespaces.antt =====
-- namespace.go of pkg/k8s, and NewClientCustom of k8s.go, which makes the client's namespace.
pub mod Entering
use knuu.Prelude.{Bool, true, false, if◌then◌else◌, Option, none, some, List, [], ◌∷◌}
use knuu.Prelude.Text.{Text, codes}
use knuu.Prelude.Int.{ℤ, pos}
use knuu.Errors.{Error, wrapped, is_missing, k8s_code}
use knuu.Errors.Codes.{invalid_cluster_domain, creating_namespace, deleting_namespace}
use knuu.Action.{pure, raise, throw, crash, wrapping, ◌>>=◌, ◌>>◌}
use knuu.Host.{Foreign, Call}
use knuu.K8s.Objects.{Namespace}
use knuu.K8s.Sanitize.{sanitize_name}
use knuu.K8s.Validate.{Validation, validate_dns1123_subdomain, validate_namespace}
use knuu.K8s.Cluster.{is_existing, on_error, check, Clientset, Client, alive}

module _ ⦃f : Foreign⦄ where
  abbrev pub delete_namespace : Client → Text → Call (Unit {0})
  delete_namespace c name =
      wrapping (k8s_code deleting_namespace) (c.clientset.namespaces.delete name none)

  abbrev pub get_namespace : Client → Text → Call Namespace
  get_namespace c name = c.clientset.namespaces.get name

  abbrev pub namespace_exists : Client → Text → Call Bool
  namespace_exists c name =
      on_error (get_namespace c name) (λ e. if is_missing e then pure false else throw e)
        (λ ns. pure true)

  module _ ⦃v : Validation⦄ where
    unfoldable pub create_namespace : Client → Text → Call (Unit {0})
    create_namespace c name = do
      alive c
      check (validate_namespace name)
      on_error (c.clientset.namespaces.create (record { name = name }))
          (λ e. if is_existing e then pure tt else throw (wrapped (k8s_code creating_namespace) e))
          (λ ns. pure tt)

    -- The options are functions on ClientOptions, which holds the domain of the cluster.
    abbrev pub default_cluster_domain : Text
    default_cluster_domain = codes "cluster.local"

    abbrev pub default_max_pending_duration : ℤ
    default_max_pending_duration = pos 60000000000

    abbrev pub apply_options : List (Text → Text) → Text → Text
    apply_options [] domain = domain
    apply_options (option ∷ options) domain = apply_options options (option domain)

    abbrev pub with_cluster_domain : Text → Text → Text
    with_cluster_domain cluster_domain old = cluster_domain

    abbrev pub client_in : Clientset → Text → Text → Client
    client_in clientset domain namespace = record {
      clientset = clientset;
      namespace = namespace;
      cluster_domain = domain;
      terminated = false;
      max_pending_duration = default_max_pending_duration;
    }

    abbrev pub enter_namespace : Clientset → Text → Option Text → Call Client
    enter_namespace clientset domain none = crash
    enter_namespace clientset domain (some namespace) = do
      let c = client_in clientset domain namespace
      wrapping (k8s_code creating_namespace) (create_namespace c namespace)
      pure c

    unfoldable pub new_client_custom : Clientset → Text → List (Text → Text) → Call Client
    new_client_custom clientset namespace options = do
      let domain = apply_options options default_cluster_domain
      check (validate_dns1123_subdomain domain invalid_cluster_domain)
      enter_namespace clientset domain (sanitize_name namespace)
