-- ===== src/K8s/Cluster/Services/Created.antt =====
-- What a service that was just created answers, on a server without faults that may assign fields of
-- it.
use knuu.Prelude.{ℕ, ◌≡◌, refl, ap, ◌∙◌, Bool, true, false, if◌then◌else◌, none, some, List, ◌∷◌}
use knuu.Prelude.Text.{Text, is_empty, text_eq_iff}
use knuu.Prelude.Int.{ℤ}
use knuu.Errors.{ok, err, raised, k8s_code}
use knuu.Errors.Codes.{
  K8sCode, client_terminated, preparing_service, creating_service,
  cannot_connect_to_headless_service,
}
use knuu.Action.{pure, raise, wrapping}
use knuu.Action.Stops.{bind_of_ok, wrapping_of_ok}
use knuu.Host.{Foreign, Os}
use knuu.K8s.Types.{Labels, ServiceOptions}
use knuu.K8s.Objects.{ServiceObject}
use knuu.K8s.Pods.{int32}
use knuu.K8s.Validate.{
  Validation, ◌⨾◌, fails_if, validate_service_name, validate_service_options, validate_labels,
  validate_ports, validate_selector_map, validate_port,
}
use knuu.K8s.Cluster.{Client}
use knuu.K8s.Cluster.Outcomes.{passed}
use knuu.K8s.Cluster.Store.{IsServer, got, created}
use knuu.K8s.Cluster.Services.{
  build_ports, service_of, prepare_service, services, get_service, create_service, service_port,
}
use knuu.K8s.Cluster.Services.{is_headless_service}
use knuu.K8s.Cluster.Services.Kept.{port_numbers, Keeps, first_port_lem}
use knuu.K8s.Cluster.Services.Ports.{seq_none, int32_lem}
use knuu.K8s.Cluster.Services.Waiting.{Dialer, wait_for_service}

module _ ⦃f : Foreign⦄ ⦃v : Validation⦄ (c : Client) (alive : c.terminated ≡ false)
    (st : IsServer (services c) (λ srv. srv.meta.name))
    (keeps : (a : ServiceObject) (x : f.Outside) → Keeps a (st.admitted a x)) (name : Text)
    (labels selector : Labels) (port : ℤ) (tcp_ports udp_ports : List ℤ) where
  abbrev pub options : Bool → ServiceOptions
  options not_headless = record {
    labels = labels;
    selector_map = selector;
    tcp_ports = port ∷ tcp_ports;
    udp_ports = udp_ports;
    not_headless = not_headless;
  }

  abbrev service : Bool → ServiceObject
  service b = service_of c.namespace name (options b) (build_ports (port ∷ tcp_ports) udp_ports)

  not_terminated : fails_if c.terminated client_terminated ≡ none
  not_terminated = rw alive refl

  prepared :
      (b : Bool)
      → is_empty c.namespace ≡ false
      → is_empty name ≡ false
      → prepare_service c.namespace name (options b) ≡ ok (service b)
  unfolding prepare_service build_ports
  prepared b h h' = rw (h, h') refl

  module _ (x : f.Outside) (namespace_set : is_empty c.namespace ≡ false)
      (name_set : is_empty name ≡ false) (name_valid : validate_service_name name ≡ none)
      (options_valid : validate_service_options (options false) ≡ none)
      (absent : st.view x name ≡ none) where
    abbrev after : Bool → f.Outside
    after b = st.put (service b) x

    abbrev stored : Bool → ServiceObject
    stored b = st.admitted (service b) x

    created_service : (b : Bool) → create_service c name (options b) x ≡ (after b, ok (stored b))
    unfolding create_service
    created_service b =
        passed _ x _ not_terminated
        ∙ (passed _ x _ name_valid
            ∙ (passed _ x _ options_valid
                ∙ (bind_of_ok _ _ x x (service b) (
                      wrapping_of_ok (k8s_code preparing_service) _ x x (service b)
                        (ap (λ r. (x, r)) (prepared b namespace_set name_set)))
                    ∙ wrapping_of_ok (k8s_code creating_service) _ x (after b) (stored b) (
                        st.create_lem (service b) x ∙ ap (created x (after b) (stored b)) absent))))

    found : (b : Bool) → get_service c name (after b) ≡ (after b, ok (stored b))
    unfolding get_service
    found b =
        passed _ (after b) _ not_terminated
        ∙ (st.get_lem name (after b)
            ∙ ap (got (after b)) (
                st.view_put (service b) x name
                ∙ ap (λ is. if is then some (stored b) else st.view x name)
                    ((text_eq_iff name name).1 refl)))

    got_service :
        (b : Bool)
        → wrapping (k8s_code K8sCode.getting_service) (get_service c name) (after b)
          ≡ (after b, ok (stored b))
    got_service b =
        wrapping_of_ok (k8s_code K8sCode.getting_service) _ (after b) (after b) (stored b) (found b)

    stored_port : (b : Bool) → (rest : List ℤ) × (port_numbers (stored b).ports ≡ int32 port ∷ rest)
    unfolding build_ports
    stored_port b = (_, (keeps (service b) x).ports_lem)

    port_found : (b : Bool) → service_port c name (after b) ≡ (after b, ok (int32 port))
    unfolding service_port pure
    port_found b =
        let (rest, e) = stored_port b in
        bind_of_ok _ _ (after b) (after b) (stored b) (got_service b)
        ∙ rw ((keeps (service b) x).type_lem)
            (ap (λ m. m (after b)) (first_port_lem _ (stored b).ports (int32 port) rest e))

    headless : is_headless_service (stored false) ≡ true
    headless = rw ((keeps (service false) x).ip_lem refl) refl

    not_waited :
        ⦃n : Dialer⦄ ⦃o : Os⦄ (rounds : ℕ)
        → wait_for_service rounds c name (after false)
          ≡ (after false, err (raised (k8s_code cannot_connect_to_headless_service)))
    unfolding wait_for_service raise
    not_waited rounds =
        bind_of_ok _ _ (after false) (after false) (stored false) (got_service false)
        ∙ rw headless refl

    port_valid : validate_port port ≡ none
    port_valid =
        let rest = validate_ports udp_ports ⨾ validate_selector_map selector in
        let (labels_none, more) =
          seq_none (validate_labels labels) (validate_ports (port ∷ tcp_ports) ⨾ rest)
            options_valid in
        let (ports_none, others) = seq_none (validate_ports (port ∷ tcp_ports)) rest more in
        let (here, there) = seq_none (validate_port port) (validate_ports tcp_ports) ports_none in
        here

    -- A service that CreateService makes for valid options, headless or not, has the first of the TCP
    -- ports as its port, and WaitForService refuses the headless one at once. The server is without
    -- faults, has none of the name, and keeps what is asked for of the ports, type and address of a
    -- service, while it may assign the rest.
    pub create_service-answers :
        ⦃n : Dialer⦄ ⦃o : Os⦄ (rounds : ℕ) (not_headless : Bool)
        → (service_port c name (create_service c name (options not_headless) x).0
            ≡ ((create_service c name (options not_headless) x).0, ok port))
          × (wait_for_service rounds c name (create_service c name (options false) x).0 ≡ (
            (create_service c name (options false) x).0,
            err (raised (k8s_code cannot_connect_to_headless_service)),
          ))
    create_service-answers rounds b =
        rw (created_service b, created_service false)
          (port_found b ∙ ap (λ p. (after b, ok p)) (int32_lem port port_valid), not_waited rounds)
