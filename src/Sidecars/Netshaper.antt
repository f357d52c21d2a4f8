-- ===== src/Sidecars/Netshaper.antt =====
-- netshaper.go and helpers.go of pkg/sidecars/netshaper: the sidecar that shapes the network through
-- BitTwister, whose client is a parameter.
use knuu.Prelude.{
  ℕ, zero, suc, Bool, true, false, not, Option, none, some, List, [], ◌∷◌, ◌++◌, if◌then◌else◌,
}
use knuu.Prelude.Text.{Text, codes, is_empty, text_eq}
use knuu.Prelude.Strings.{show_int}
use knuu.Prelude.Int.{ℤ, pos}
use knuu.Errors.{Error, Result, ok, err, panic, wrapped, foreign, netshaper_code}
use knuu.Errors.Netshaper.{
  NetshaperCode, setting_bit_twister_image, adding_bit_twister_port,
  committing_bit_twister_instance, setting_bit_twister_env, creating_bit_twister_instance,
  setting_bit_twister_privileged, adding_bit_twister_capability, bit_twister_not_initialized,
  getting_service_status, stopping_service,
}
use knuu.Action.{Action, pure, raise, throw, crash, gets, attempt, when, wrapping, ◌>>=◌, ◌>>◌}
use knuu.Host.{Foreign, Os, Call}
use knuu.Traefik.{Traefik}
use knuu.Instance.World.{Ref, World, SidecarManager, call}
use knuu.Instance.Access.{deref}
use knuu.Instance.Build
use knuu.Instance.Network
use knuu.Instance.Network.Proxy
use knuu.Instance.Security
use knuu.Instance.Naming.{clone_with_name}
use knuu.Sidecars.{on_world, edit_struct, new_sidecar}

abbrev pub twister_name : Text → Text
twister_name prefix = prefix ++ codes "-bit-twister"

module _ ⦃f : Foreign⦄ where
  -- The package sdk of BitTwister. A service is given by the calls for its status, of which the slug is
  -- read, and for its stop; IsErrorServiceNotInitialized, NotReady and NotStarted are one test.
  pub record Twister : Type 1 where
    pub Client : Type 0
    pub new_client : Text → Client
    pub bandwidth_status : Client → Call Text
    pub bandwidth_stop : Client → Call (Unit {0})
    pub bandwidth_start : Client → Text → ℤ → Call (Unit {0})
    pub latency_status : Client → Call Text
    pub latency_stop : Client → Call (Unit {0})
    pub latency_start : Client → Text → ℤ → ℤ → Call (Unit {0})
    pub packetloss_status : Client → Call Text
    pub packetloss_stop : Client → Call (Unit {0})
    pub packetloss_start : Client → Text → ℤ → Call (Unit {0})
    pub all_services_status : Client → Call (List Text)
    pub slug_service_ready : Text
    pub is_not_running : Error → Bool

module _ ⦃f : Foreign⦄ ⦃s : Twister⦄ where
  pub record NetShaper : Type 0 where
    pub own_instance : Option Ref
    pub port : ℤ
    pub image : Text
    pub network_interface : Text
    pub client : Option s.Client

  abbrev pub Shaping : Type 0 → Type 0
  Shaping A = Action (NetShaper × World) A

  unfoldable pub new_net_shaper : NetShaper
  new_net_shaper = record {
    own_instance = none;
    port = pos 9009;
    image = codes "ghcr.io/celestiaorg/bittwister:4187779";
    network_interface = codes "eth0";
    client = none;
  }

  abbrev pub in_case : {A : Type 0} → NetshaperCode → Action World A → Shaping A
  in_case c m = wrapping (netshaper_code c) (on_world m)

  abbrev pub not_initialized : {A : Type 0} → Shaping A
  not_initialized = raise (netshaper_code bit_twister_not_initialized)

  unfoldable pub initialize_net_shaper : ⦃o : Os⦄ → Text → Shaping (Unit {0})
  unfolding new_sidecar
  initialize_net_shaper name_prefix = do
    i ←
        new_sidecar (λ r n. record n { own_instance = r })
          (netshaper_code creating_bit_twister_instance) (twister_name name_prefix)
    n ← gets (λ p. p.0)
    in_case setting_bit_twister_image (Build.set_image i n.image [])
    in_case adding_bit_twister_port (Network.add_port_tcp i n.port)
    in_case committing_bit_twister_instance (Build.commit i)
    in_case setting_bit_twister_env (
        Build.set_environment_variable i (codes "SERVE_ADDR") (codes "0.0.0.0:" ++ show_int n.port))
    in_case setting_bit_twister_privileged (Security.set_privileged i true)
    in_case adding_bit_twister_capability (Security.add_kubernetes_capability i (codes "NET_ADMIN"))

  unfoldable pub set_new_client_by_url : Text → Shaping (Unit {0})
  set_new_client_by_url url = edit_struct (λ n. record n { client = some (s.new_client url) })

  abbrev pub reach : Option Traefik → ℤ → Option Ref → Shaping Traefik
  unfolding set_new_client_by_url
  reach proxy port none = not_initialized
  reach proxy port (some i) = do
    (t, url) ← on_world (Proxy.add_host proxy i port)
    set_new_client_by_url url
    pure t

  -- The proxy as AddHost leaves it.
  unfoldable pub pre_start_net_shaper : Option Traefik → Shaping Traefik
  pre_start_net_shaper proxy = do n ← gets (λ p. p.0); reach proxy n.port n.own_instance

  unfoldable pub clone_net_shaper : ⦃m : SidecarManager⦄ → Text → Shaping NetShaper
  clone_net_shaper name_prefix = do
    n ← gets (λ p. p.0)
    original ← deref n.own_instance
    j ← on_world (clone_with_name original (twister_name name_prefix))
    pure (record n { own_instance = some j; client = none })

  unfoldable pub set_port : ℤ → Shaping (Unit {0})
  set_port port = edit_struct (λ n. record n { port = port })

  unfoldable pub set_net_shaper_image : Text → Shaping (Unit {0})
  set_net_shaper_image image = edit_struct (λ n. record n { image = image })

  unfoldable pub set_network_interface : Text → Shaping (Unit {0})
  set_network_interface network_interface =
      edit_struct (λ n. record n { network_interface = network_interface })

  -- The error of the stop comes back also where it says that the service was not running.
  abbrev pub stopped : Result (Unit {0}) → Shaping (Unit {0})
  stopped (ok u) = pure u
  stopped (err e) =
      throw (if s.is_not_running e then e else wrapped (netshaper_code stopping_service) e)
  stopped panic = crash

  abbrev pub stop_ready : Call Text → Call (Unit {0}) → Option Ref → Shaping (Unit {0})
  stop_ready status stop none = pure tt
  stop_ready status stop (some i) = do
    slug ← in_case getting_service_status (call status)
    when (not (text_eq slug s.slug_service_ready)) (pure tt)
        do tried ← attempt (on_world (call stop)); stopped tried

  unfoldable pub stop_if_running : Call Text → Call (Unit {0}) → Shaping (Unit {0})
  stop_if_running status stop = do i ← gets (λ p. p.0.own_instance); stop_ready status stop i

  abbrev pub with_client : {A : Type 0} → (s.Client → Shaping A) → Option s.Client → Shaping A
  with_client g none = not_initialized
  with_client g (some c) = g c

  -- if bt.client == nil { return ErrBitTwisterNotInitialized }
  abbrev pub through_client : {A : Type 0} → (s.Client → Shaping A) → Shaping A
  through_client g = do c ← gets (λ p. p.0.client); with_client g c

  -- Stop the service, and start it with the interface.
  abbrev pub restart :
      (s.Client → Call Text)
      → (s.Client → Call (Unit {0}))
      → (s.Client → Text → Call (Unit {0}))
      → Shaping (Unit {0})
  unfolding stop_if_running
  restart status stop start = through_client λ c. do
    stop_if_running (status c) (stop c)
    network_interface ← gets (λ p. p.0.network_interface)
    on_world (call (start c network_interface))

  unfoldable pub set_bandwidth_limit : ℤ → Shaping (Unit {0})
  set_bandwidth_limit limit =
      restart (λ c. s.bandwidth_status c) (λ c. s.bandwidth_stop c)
        (λ c n. s.bandwidth_start c n limit)

  unfoldable pub set_latency_and_jitter : ℤ → ℤ → Shaping (Unit {0})
  set_latency_and_jitter latency jitter =
      restart (λ c. s.latency_status c) (λ c. s.latency_stop c)
        (λ c n. s.latency_start c n latency jitter)

  unfoldable pub set_packet_loss : ℤ → Shaping (Unit {0})
  set_packet_loss packet_loss =
      restart (λ c. s.packetloss_status c) (λ c. s.packetloss_stop c)
        (λ c n. s.packetloss_start c n packet_loss)

  unfoldable pub all_services_status : Shaping (List Text)
  all_services_status = through_client λ c. on_world (call (s.all_services_status c))

  -- err == nil && len(out) > 0 && len(out[0].Name) > 0
  abbrev pub is_started : Result (List Text) → Bool
  is_started (ok []) = false
  is_started (ok (name ∷ names)) = not (is_empty name)
  is_started (err e) = false
  is_started panic = false

  module _ ⦃o : Os⦄ where
    -- none means that the rounds ran out.
    abbrev pub wait_status : ℕ → s.Client → Call (Option (Unit {0}))
    wait_status zero c = pure none
    wait_status (suc rounds) c = do
      let rest = wait_status rounds c
      out ← attempt (s.all_services_status c)
      when (is_started out) (pure (some tt))
          do done ← o.select_done; when done (throw (foreign o.context_error)) rest

    unfoldable pub wait_for_start : ℕ → Shaping (Option (Unit {0}))
    wait_for_start rounds = through_client λ c. on_world (call (wait_status rounds c))
