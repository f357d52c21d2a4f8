-- ===== src/Instance/Naming.antt =====
-- instance.go: New, SetName and CloneWithName, over the registry of names that pkg/system keeps
-- (dependencies.go). The registry is a list of names; a name may stand in it more than once.
pub mod Distinct
pub mod Creating
use knuu.Prelude.{
  ℕ, ◌+◌, Bool, true, false, not, Option, none, some, List, [], ◌∷◌, ◌++◌, any, if◌then◌else◌,
}
use knuu.Prelude.Text.{Text, codes, is_empty, text_eq}
use knuu.Errors.Codes.{instance_name_already_exists, cannot_clone_instance}
use knuu.Action.{Action, pure, gets, modify, when, ◌>>=◌, ◌>>◌}
use knuu.Host.{Foreign}
use knuu.K8s.Sanitize.{sanitize_name}
use knuu.Instance.State
use knuu.Instance.State.{basic_instance}
use knuu.Instance.World.{Ref, World, Instance, SidecarManager, update}
use knuu.Instance.Access.{fail, guard, deref, self, edit, require_state}
use knuu.Instance.Security
use knuu.Instance.Monitoring
use knuu.Instance.Network
use knuu.Instance.Build
use knuu.Instance.Storage
use knuu.Instance.Resources
use knuu.Instance.Sidecars.{clone_all}

unfoldable pub has_instance_name : Text → List Text → Bool
has_instance_name name names = any (λ n. text_eq n name) names

abbrev pub add_instance_name : Text → List Text → List Text
add_instance_name name names = name ∷ names

unfoldable pub remove_instance_name : Text → List Text → List Text
remove_instance_name name [] = []
remove_instance_name name (n ∷ names) =
    let rest = remove_instance_name name names in if text_eq n name then rest else n ∷ rest

module _ ⦃f : Foreign⦄ where
  abbrev edit_names : (List Text → List Text) → Action World (Unit {0})
  edit_names g = modify (λ w. record w { instance_names = g w.instance_names })

  unfoldable pub set_name : Ref → Text → Action World (Unit {0})
  set_name i given = do
    name ← deref (sanitize_name given)
    names ← gets (λ w. w.instance_names)
    guard (not (has_instance_name name names)) instance_name_already_exists
    edit_names (add_instance_name name)
    inst ← self i
    when (is_empty inst.name) (pure tt) (edit_names (remove_instance_name inst.name))
    edit i (λ a. record a { name = name })

  -- The instance that New builds, before its name is set.
  abbrev pub blank : Instance
  blank = record {
    build = record {
      image_name = [];
      image_pull_policy = codes "Always";
      builder_factory = none;
      command = [];
      args = [];
      env = [];
      image_cache = [];
      build_dir = [];
      node_selector = [];
    };
    resources = record {
      memory_request = f.zero_quantity;
      memory_limit = f.zero_quantity;
      cpu_request = f.zero_quantity;
    };
    network = record { ports_tcp = []; ports_udp = []; kubernetes_service = none };
    storage = record { volumes = []; files = [] };
    monitoring = record { liveness_probe = none; readiness_probe = none; startup_probe = none };
    security = record { privileged = false; capabilities_add = []; policy_rules = [] };
    sidecars = record { is_sidecar = false; sidecars = [] };
    name = [];
    state = State.none;
    instance_type = basic_instance;
    kubernetes_replica_set = none;
    parent_instance = none;
  }

  -- &Instance{…}: a place that no pointer names yet.
  unfoldable pub allocate : Instance → Action World Ref
  allocate inst = do
    i ← gets (λ w. w.next_instance)
    modify (λ w. record w { instances = update w.instances i inst; next_instance = i + 1 })
    pure i

  unfoldable pub new : Text → Action World Ref
  unfolding allocate set_name
  new name = do i ← allocate blank; set_name i name; pure i

  module _ ⦃m : SidecarManager⦄ where
    pub clone_with_name : Ref → Text → Action World Ref
    unfolding allocate set_name
    clone_with_name i name = do
      require_state i (State.committed ∷ State.stopped ∷ []) cannot_clone_instance
      inst ← self i
      cloned_sidecars ← clone_all inst.sidecars.sidecars name
      current ← self i
      j ← allocate (record {
        build = Build.clone current.build;
        resources = Resources.clone current.resources;
        network = Network.clone current.network;
        storage = Storage.clone current.storage;
        monitoring = Monitoring.clone current.monitoring;
        security = Security.clone current.security;
        sidecars = record { is_sidecar = false; sidecars = cloned_sidecars };
        name = [];
        state = current.state;
        instance_type = current.instance_type;
        kubernetes_replica_set = none;
        parent_instance = none;
      })
      set_name j name
      pure j

    pub clone_with_suffix : Ref → Text → Action World Ref
    unfolding clone_with_name
    clone_with_suffix i suffix = do
      inst ← self i
      clone_with_name i (inst.name ++ (codes "-" ++ suffix))
