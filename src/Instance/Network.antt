-- ===== src/Instance/Network.antt =====
-- network.go: the ports of an instance, its service and its network policy.
pub mod Frame
pub mod Ports
pub mod Proxy
pub mod Forwarding
use knuu.Prelude.{
  ℕ, zero, suc, ◌==◌, Bool, true, false, not, ◌||◌, ◌&&◌, Option, none, some, List, [], ◌∷◌, ◌++◌,
  any,
}
use knuu.Prelude.Text.{Text, is_empty}
use knuu.Prelude.Int.{ℤ, pos, ltb_ℤ, eqb_ℤ}
use knuu.Errors.{Result, ok, err, panic}
use knuu.Errors.Codes.{
  adding_port_not_allowed, port_number_out_of_range, port_already_registered,
  udp_port_already_registered, random_port_forwarding_not_allowed, port_not_registered,
  getting_free_port, getting_pod_from_replica_set, forwarding_port, getting_ip_not_allowed,
  pod_ip_not_ready, deploying_service_for_sidecar, deploying_service, patching_service_for_sidecar,
  patching_service, disabling_network_not_allowed, disabling_network, enabling_network_not_allowed,
  enabling_network, checking_if_network_disabled_not_allowed, deploying_service_for_instance,
  patching_service_for_instance, checking_network_status_for_instance,
  enabling_network_for_instance,
}
use knuu.Action.{Action, pure, attempt, when, crash, ◌>>=◌, ◌>>◌}
use knuu.Host.{Foreign, Os, Pod}
use knuu.K8s.Types.{KubeManager, ServiceOptions}
use knuu.Instance.State
use knuu.Instance.World.{Ref, World, Instance, Network, call}
use knuu.Instance.Access.{
  configurable, fail, or_wrap, guard, deref, self, edit, require_state, labels,
}

abbrev pub is_registered : ℤ → List ℤ → Bool
is_registered port ports = any (λ p. eqb_ℤ p port) ports

abbrev pub in_range : ℤ → Bool
in_range port = not (ltb_ℤ port (pos 1) || ltb_ℤ (pos 65535) port)

abbrev pub is_nil : List ℤ → Bool
is_nil [] = true
is_nil (p ∷ ps) = false

module _ ⦃f : Foreign⦄ where
  abbrev edit_network : Ref → (Network → Network) → Action World (Unit {0})
  edit_network i g = edit i (λ inst. record inst { network = g inst.network })

  unfoldable pub validate_port : ℤ → Action World (Unit {0})
  validate_port port = guard (in_range port) port_number_out_of_range

  unfoldable pub add_port_tcp : Ref → ℤ → Action World (Unit {0})
  unfolding validate_port
  add_port_tcp i port = do
    require_state i configurable adding_port_not_allowed
    validate_port port
    inst ← self i
    guard (not (is_registered port inst.network.ports_tcp)) port_already_registered
    edit_network i (λ n. record n { ports_tcp = n.ports_tcp ++ port ∷ [] })

  unfoldable pub add_port_udp : Ref → ℤ → Action World (Unit {0})
  unfolding validate_port
  add_port_udp i port = do
    require_state i configurable adding_port_not_allowed
    validate_port port
    inst ← self i
    guard (not (is_registered port inst.network.ports_udp)) udp_port_already_registered
    edit_network i (λ n. record n { ports_udp = n.ports_udp ++ port ∷ [] })

  pub clone : Network → Network
  clone n = record { ports_tcp = n.ports_tcp; ports_udp = n.ports_udp; kubernetes_service = none }

  module _ ⦃k : KubeManager⦄ where
    -- The options of CreateService and PatchService.
    service_options : Ref → List ℤ → List ℤ → Action World ServiceOptions
    service_options i tcp udp = do
      ls ← labels i
      pure (record {
        labels = ls;
        selector_map = ls;
        tcp_ports = tcp;
        udp_ports = udp;
        not_headless = false;
      })

    pub deploy_service : Ref → List ℤ → List ℤ → Action World (Unit {0})
    unfolding service_options
    deploy_service i tcp udp = do
      inst ← self i
      guard (not inst.sidecars.is_sidecar) deploying_service_for_sidecar
      opts ← service_options i tcp udp
      srv ← or_wrap deploying_service (call (k.create_service inst.name opts))
      edit_network i (λ n. record n { kubernetes_service = some srv })

    pub patch_service : Ref → List ℤ → List ℤ → Action World (Unit {0})
    unfolding service_options
    patch_service i tcp udp = do
      inst ← self i
      guard (not inst.sidecars.is_sidecar) patching_service_for_sidecar
      opts ← service_options i tcp udp
      srv ← or_wrap patching_service (call (k.patch_service inst.name opts))
      edit_network i (λ n. record n { kubernetes_service = some srv })

    unfoldable pub destroy_service : Ref → Action World (Unit {0})
    destroy_service i = do inst ← self i; call (k.delete_service inst.name)

    -- svc, _ := GetService(…): the service, nil on an error.
    abbrev found_service : Result (Option f.Service) → Option f.Service
    found_service (ok svc) = svc
    found_service (err e) = none
    found_service panic = none

    abbrev deploy_or_patch : Ref → List ℤ → List ℤ → Option f.Service → Action World (Unit {0})
    deploy_or_patch i tcp udp none =
        or_wrap deploying_service_for_instance (deploy_service i tcp udp)
    deploy_or_patch i tcp udp (some svc) =
        or_wrap patching_service_for_instance (patch_service i tcp udp)

    pub deploy_or_patch_service : Ref → List ℤ → List ℤ → Action World (Unit {0})
    unfolding deploy_service patch_service
    deploy_or_patch_service i tcp udp = when (is_nil tcp && is_nil udp) (pure tt) do
      inst ← self i
      found ← attempt (call (k.get_service inst.name))
      deploy_or_patch i tcp udp (found_service found)

    unfoldable pub disable : Ref → Action World (Unit {0})
    disable i = do
      require_state i (State.started ∷ []) disabling_network_not_allowed
      inst ← self i
      ls ← labels i
      or_wrap disabling_network (call (k.create_network_policy inst.name ls))

    unfoldable pub enable : Ref → Action World (Unit {0})
    enable i = do
      require_state i (State.started ∷ []) enabling_network_not_allowed
      inst ← self i
      or_wrap enabling_network (call (k.delete_network_policy inst.name))

    unfoldable pub is_disabled : Ref → Action World Bool
    is_disabled i = do
      require_state i (State.started ∷ []) checking_if_network_disabled_not_allowed
      inst ← self i
      call (k.network_policy_exists inst.name)

    unfoldable pub enable_if_disabled : Ref → Action World (Unit {0})
    unfolding enable is_disabled
    enable_if_disabled i = do
      disabled ← or_wrap checking_network_status_for_instance (is_disabled i)
      when disabled (or_wrap enabling_network_for_instance (enable i)) (pure tt)

    pub get_ephemeral_ip : Ref → Action World Text
    get_ephemeral_ip i = do
      require_state i (State.started ∷ []) getting_ip_not_allowed
      inst ← self i
      found ← or_wrap getting_pod_from_replica_set (call (k.get_first_pod inst.name))
      pod ← deref found
      guard (not (is_empty pod.pod_ip)) pod_ip_not_ready
      pure pod.pod_ip

    module _ ⦃o : Os⦄ where
      -- What follows a round of the loop of PortForwardTCP: the wait, which is made after the last
      -- attempt too, and then `rest`, the rounds that are left.
      unfoldable pub after_attempt :
          ℕ → Action World (Unit {0}) → Result (Unit {0}) → Action World (Unit {0})
      after_attempt left rest (ok _) = pure tt
      after_attempt left rest (err _) = do
        done ← call o.select_done
        when (done || left == 0) (fail forwarding_port) rest
      after_attempt left rest panic = crash

      -- One round for each attempt that is left; `maxRetries` is 5.
      unfoldable pub forward_attempts : ℕ → Pod → ℤ → ℤ → Action World (Unit {0})
      unfolding after_attempt
      forward_attempts zero pod local_port port = pure tt
      forward_attempts (suc left) pod local_port port = do
        let rest = forward_attempts left pod local_port port
        tried ← attempt (call (k.port_forward_pod pod.name local_port port))
        after_attempt left rest tried

      -- The error of getFreePortTCP is dropped.
      unfoldable pub port_or_fail : Result ℤ → Action World ℤ
      port_or_fail (ok port) = pure port
      port_or_fail (err e) = fail getting_free_port
      port_or_fail panic = crash

      unfoldable pub port_forward_tcp : Ref → ℤ → Action World ℤ
      unfolding validate_port forward_attempts port_or_fail
      port_forward_tcp i port = do
        require_state i (State.started ∷ []) random_port_forwarding_not_allowed
        validate_port port
        inst ← self i
        guard (is_registered port inst.network.ports_tcp) port_not_registered
        tried ← attempt (call o.free_port)
        local_port ← port_or_fail tried
        found ← or_wrap getting_pod_from_replica_set (call (k.get_first_pod inst.name))
        pod ← deref found
        forward_attempts 5 pod local_port port
        pure local_port
