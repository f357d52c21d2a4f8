-- ===== src/K8s/Cluster/Daemons.antt =====
-- daemonset.go of pkg/k8s.
use knuu.Prelude.{Bool, true, false, if◌then◌else◌, none, List, []}
use knuu.Prelude.Text.{Text}
use knuu.Errors.{wrapped, is_missing, k8s_code}
use knuu.Errors.Codes.{
  getting_daemonset, creating_daemonset, updating_daemonset, deleting_daemonset,
}
use knuu.Action.{pure, throw, wrapping, ◌>>◌}
use knuu.Host.{Foreign, Call}
use knuu.K8s.Types.{Labels}
use knuu.K8s.Objects.{Container, DaemonSet}
use knuu.K8s.Validate.{Validation, validate_daemon_set_name, validate_labels, validate_containers}
use knuu.K8s.Cluster.{on_error, check, Api, Client, alive}

module _ ⦃f : Foreign⦄ where
  abbrev pub daemon_sets : Client → Api DaemonSet
  daemon_sets c = c.clientset.daemon_sets c.namespace

  abbrev pub daemon_set_exists : Client → Text → Call Bool
  daemon_set_exists c name =
      on_error ((daemon_sets c).get name)
        (λ e. if is_missing e then pure false else throw (wrapped (k8s_code getting_daemonset) e))
        (λ ds. pure true)

  abbrev pub get_daemon_set : Client → Text → Call DaemonSet
  get_daemon_set c name = wrapping (k8s_code getting_daemonset) ((daemon_sets c).get name)

  abbrev pub delete_daemon_set : Client → Text → Call (Unit {0})
  delete_daemon_set c name =
      wrapping (k8s_code deleting_daemonset) ((daemon_sets c).delete name none)

  abbrev pub prepare_daemon_set : Text → Text → Labels → List Container → List Container → DaemonSet
  prepare_daemon_set namespace name labels init_containers containers = record {
    meta = record { namespace = namespace; name = name; labels = labels; annotations = [] };
    selector = labels;
    template_labels = labels;
    init_containers = init_containers;
    containers = containers;
  }

  module _ ⦃v : Validation⦄ where
    unfoldable pub create_daemon_set :
        Client → Text → Labels → List Container → List Container → Call DaemonSet
    create_daemon_set c name labels init_containers containers = do
      alive c
      check (validate_daemon_set_name name)
      check (validate_labels labels)
      check (validate_containers containers)
      wrapping (k8s_code creating_daemonset) (
          (daemon_sets c).create
            (prepare_daemon_set c.namespace name labels init_containers containers))

    -- The one update that a terminated client does not refuse.
    unfoldable pub update_daemon_set :
        Client → Text → Labels → List Container → List Container → Call DaemonSet
    update_daemon_set c name labels init_containers containers = do
      check (validate_daemon_set_name name)
      check (validate_labels labels)
      check (validate_containers containers)
      wrapping (k8s_code updating_daemonset) (
          (daemon_sets c).update
            (prepare_daemon_set c.namespace name labels init_containers containers))
