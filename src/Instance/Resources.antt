-- ===== src/Instance/Resources.antt =====
-- resources.go: memory and CPU, and the cluster resources that an instance is deployed with.
pub mod Frame
use knuu.Prelude.{Bool, not, ◌&&◌, Option, none, some, List, [], ◌∷◌, ◌++◌, true, false}
use knuu.Prelude.Int.{ℤ}
use knuu.Errors.Codes.{
  setting_memory_not_allowed, setting_cpu_not_allowed, deploying_volume_for_instance,
  deploying_files_for_instance, failed_to_deploy_or_patch_service, destroying_volume_for_instance,
  destroying_files_for_instance, destroying_service_for_instance, enabling_network_for_instance,
}
use knuu.Action.{Action, pure, when, ◌>>=◌, ◌>>◌}
use knuu.Host.{Foreign, Os}
use knuu.K8s.Types.{KubeManager}
use knuu.Instance.World.{Ref, World, Instance, Resources}
use knuu.Instance.Access.{configurable, or_wrap, self, edit, require_state}
use knuu.Instance.Network.{is_nil, deploy_or_patch_service, destroy_service, enable_if_disabled}
use knuu.Instance.Storage.{no_volumes, deploy_volume, destroy_volume, deploy_files, destroy_files}
use knuu.Instance.Sidecars.{sidecar}

abbrev is_some {ℓ} : {A : Type ℓ} → Option A → Bool
is_some none = false
is_some (some a) = true

module _ ⦃f : Foreign⦄ where
  -- DeepCopy of a quantity gives an equal quantity.
  pub clone : Resources → Resources
  clone r = record {
    memory_request = r.memory_request;
    memory_limit = r.memory_limit;
    cpu_request = r.cpu_request;
  }

  abbrev edit_resources : Ref → (Resources → Resources) → Action World (Unit {0})
  edit_resources i g = edit i (λ inst. record inst { resources = g inst.resources })

  unfoldable pub set_memory : Ref → f.Quantity → f.Quantity → Action World (Unit {0})
  set_memory i request limit = do
    require_state i configurable setting_memory_not_allowed
    edit_resources i (λ r. record r { memory_request = request; memory_limit = limit })

  unfoldable pub set_cpu : Ref → f.Quantity → Action World (Unit {0})
  set_cpu i request = do
    require_state i configurable setting_cpu_not_allowed
    edit_resources i (λ r. record r { cpu_request = request })

  -- The ports of the instance, and then those of each sidecar.
  pub all_ports : List ℤ → List ℤ → List f.Manager → Action World (List ℤ × List ℤ)
  all_ports tcp udp [] = pure (tcp, udp)
  all_ports tcp udp (sc ∷ scs) = do
    j ← sidecar sc
    side ← self j
    all_ports (tcp ++ side.network.ports_tcp) (udp ++ side.network.ports_udp) scs

  module _ ⦃k : KubeManager⦄ where
    pub deploy_service : Ref → Action World (Unit {0})
    unfolding all_ports
    deploy_service i = do
      inst ← self i
      ports ← all_ports inst.network.ports_tcp inst.network.ports_udp inst.sidecars.sidecars
      when (is_nil ports.0 && is_nil ports.1) (pure tt)
          (or_wrap failed_to_deploy_or_patch_service (deploy_or_patch_service i ports.0 ports.1))

    unfoldable pub destroy_resources : Ref → Action World (Unit {0})
    destroy_resources i = do
      inst ← self i
      when (no_volumes inst.storage.volumes) (pure tt)
          (or_wrap destroying_volume_for_instance (destroy_volume i))
      when (no_volumes inst.storage.files) (pure tt)
          (or_wrap destroying_files_for_instance (destroy_files i))
      when (is_some inst.network.kubernetes_service)
          (or_wrap destroying_service_for_instance (destroy_service i)) (pure tt)
      when inst.sidecars.is_sidecar (pure tt)
          (or_wrap enabling_network_for_instance (enable_if_disabled i))

    module _ ⦃o : Os⦄ where
      pub deploy_storage : Ref → Action World (Unit {0})
      deploy_storage i = do
        inst ← self i
        when (no_volumes inst.storage.volumes) (pure tt)
            (or_wrap deploying_volume_for_instance (deploy_volume i))
        when (no_volumes inst.storage.files) (pure tt)
            (or_wrap deploying_files_for_instance (deploy_files i))

      pub deploy_resources : Ref → Action World (Unit {0})
      unfolding deploy_service deploy_storage
      deploy_resources i = do
        inst ← self i
        when inst.sidecars.is_sidecar (pure tt) (deploy_service i)
        deploy_storage i
