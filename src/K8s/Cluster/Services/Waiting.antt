-- ===== src/K8s/Cluster/Services/Waiting.antt =====
-- service.go of pkg/k8s: whether a service is ready, and the wait for it.
use knuu.Prelude.{
  ℕ, zero, suc, Bool, true, false, if◌then◌else◌, Option, none, some, List, [], ◌∷◌, any,
}
use knuu.Prelude.Text.{Text, codes, text_eq}
use knuu.Errors.{k8s_code}
use knuu.Errors.Codes.{
  K8sCode, getting_nodes, getting_pods_for_service, failed_to_connect,
  cannot_connect_to_headless_service, timeout_waiting_for_service_ready, checking_service_ready,
  getting_service_endpoint,
}
use knuu.Action.{pure, raise, crash, wrapping, when, ◌>>=◌}
use knuu.Host.{Foreign, Os, Call}
use knuu.K8s.Types.{Labels}
use knuu.K8s.Objects.{
  ServiceType, cluster_ip_service, node_port_service, load_balancer_service, other_service,
  ServicePort, ServiceObject, PodObject,
}
use knuu.K8s.Validate.{is_nil}
use knuu.K8s.Cluster.{on_error, Client}
use knuu.K8s.Cluster.Services.{
  is_headless_service, is_zero_port, has_external_ip, get_service, get_service_endpoint,
}

-- Package net, and the printer of label selectors of the API.
module _ ⦃f : Foreign⦄ where
  pub record Dialer : Type 0 where
    pub dial : Text → Call (Unit {0})
    pub format_selector : Labels → Text

  abbrev pub is_running_pod : PodObject → Bool
  is_running_pod pod = text_eq pod.phase (codes "Running")

module _ ⦃f : Foreign⦄ ⦃n : Dialer⦄ where
  abbrev pub check_service_connectivity : Text → Call (Unit {0})
  check_service_connectivity endpoint = wrapping (k8s_code failed_to_connect) (n.dial endpoint)

  abbrev pub is_headless_service_ready : Client → ServiceObject → Call Bool
  is_headless_service_ready c service = do
    pods ←
        wrapping (k8s_code getting_pods_for_service)
          (c.clientset.list_pods service.meta.namespace (n.format_selector service.selector))
    pure (any is_running_pod pods)

  -- The first port is read without a test that there is one.
  abbrev pub is_node_port_service_ready : Client → List ServicePort → Call Bool
  is_node_port_service_ready c [] = crash
  is_node_port_service_ready c (p ∷ ports) = if is_zero_port p.node_port then pure false else do
    nodes ← wrapping (k8s_code getting_nodes) c.clientset.list_nodes
    pure (any has_external_ip nodes)

  abbrev pub is_ready_by_type : Client → ServiceObject → ServiceType → Call Bool
  is_ready_by_type c service node_port_service = is_node_port_service_ready c service.ports
  is_ready_by_type c service load_balancer_service =
      pure (if is_nil service.ingress_ips then false else true)
  is_ready_by_type c service cluster_ip_service =
      pure (if is_nil service.external_ips then false else true)
  is_ready_by_type c service other_service =
      pure (if is_nil service.external_ips then false else true)

  unfoldable pub is_service_ready : Client → Text → Call Bool
  unfolding get_service
  is_service_ready c name = do
    service ← wrapping (k8s_code K8sCode.getting_service) (get_service c name)
    if is_headless_service service
        then is_headless_service_ready c service
        else is_ready_by_type c service service.service_type

  module _ ⦃o : Os⦄ where
    abbrev pub try_endpoint : Client → Text → Call (Option (Unit {0}))
    unfolding get_service_endpoint
    try_endpoint c name = do
      endpoint ← wrapping (k8s_code getting_service_endpoint) (get_service_endpoint c name)
      on_error (check_service_connectivity endpoint) (λ e. pure none) (λ u. pure (some tt))

    -- One round of the loop, once the context is not done: none to go on.
    unfoldable pub try_service : Client → Text → Call (Option (Unit {0}))
    unfolding is_service_ready
    try_service c name = do
      ready ← wrapping (k8s_code checking_service_ready) (is_service_ready c name)
      if ready then try_endpoint c name else pure none

    -- The loop of WaitForService; `none` means that the rounds ran out.
    unfoldable pub wait_rounds : ℕ → Client → Text → Call (Option (Unit {0}))
    wait_rounds zero c name = pure none
    wait_rounds (suc rounds) c name = do
      let rest = wait_rounds rounds c name
      done ← o.select_done
      when done (raise (k8s_code timeout_waiting_for_service_ready))
          do tried ← try_service c name; elim tried [ none ↦ rest | some u ↦ pure (some u) ]

    unfoldable pub wait_for_service : ℕ → Client → Text → Call (Option (Unit {0}))
    unfolding get_service wait_rounds
    wait_for_service rounds c name = do
      srv ← wrapping (k8s_code K8sCode.getting_service) (get_service c name)
      if is_headless_service srv
          then raise (k8s_code cannot_connect_to_headless_service)
          else wait_rounds rounds c name
