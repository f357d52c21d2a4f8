-- ===== src/Instance/Network/Proxy.antt =====
-- proxy.go of pkg/instance: the hosts of an instance behind the proxy. The proxy is the Traefik of the
-- system, none for the nil pointer; the endpoint that it keeps changes beside the world.
use knuu.Prelude.{ℕ, zero, suc, Bool, Option, none, some, [], ◌∷◌, ◌++◌}
use knuu.Prelude.Text.{Text, codes}
use knuu.Prelude.Strings.{show_int}
use knuu.Prelude.Int.{ℤ}
use knuu.Errors.{wrapped, foreign, instance_code}
use knuu.Errors.Codes.{
  adding_host_to_proxy_not_allowed, proxy_not_initialized, adding_to_proxy, getting_proxy_url,
  check_failed, context_canceled,
}
use knuu.Action.{Action, pure, throw, gets, when, ◌>>=◌, ◌>>◌}
use knuu.Host.{Foreign, Os}
use knuu.Traefik.{Traefik, url}
use knuu.Traefik
use knuu.Instance.State.{State}
use knuu.Instance.World.{Ref, World, Instance, call}
use knuu.Instance.Access.{fail, or_wrap, self, require_state, deref}

module _ ⦃f : Foreign⦄ where
  abbrev pub parent_name : Instance → Action World Text
  parent_name inst = do parent ← deref inst.parent_instance; p ← self parent; pure p.name

  -- The service is named after the parent of a sidecar.
  abbrev pub host_service : Instance → Action World Text
  host_service inst = when inst.sidecars.is_sidecar (parent_name inst) (pure inst.name)

  -- The prefix of a host: the scope, the name of the service and the port.
  unfoldable pub host_prefix : Text → Text → ℤ → Text
  host_prefix scope service_name port =
      scope ++ (codes "-" ++ (service_name ++ (codes "-" ++ show_int port)))

  abbrev pub add_route : Traefik → Text → Text → ℤ → Action World (Traefik × Text)
  add_route t service_name prefix port = do
    or_wrap adding_to_proxy (call (Traefik.add_host t service_name prefix port))
    or_wrap getting_proxy_url (call (url t prefix))

  abbrev pub on_proxy : Option Traefik → Ref → ℤ → Action World (Traefik × Text)
  unfolding host_prefix
  on_proxy none i port = fail proxy_not_initialized
  on_proxy (some t) i port = do
    inst ← self i
    service_name ← host_service inst
    scope ← gets (λ w. w.scope)
    add_route t service_name (host_prefix scope service_name port) port

  -- The proxy as it is left, and the host.
  unfoldable pub add_host : Option Traefik → Ref → ℤ → Action World (Traefik × Text)
  add_host proxy i port = do
    require_state i (State.started ∷ State.preparing ∷ State.committed ∷ [])
        adding_host_to_proxy_not_allowed
    on_proxy proxy i port

  module _ ⦃o : Os⦄ where
    -- The loop of AddHostWithReadyCheck; none means that the rounds ran out.
    unfoldable pub check_host : ℕ → (Text → Action World Bool) → Text → Action World (Option Text)
    check_host zero check host = pure none
    check_host (suc rounds) check host = do
      let rest = check_host rounds check host
      ready ← or_wrap check_failed (check host)
      when ready (pure (some host)) do
        done ← call o.select_done
        when done (throw (wrapped (instance_code context_canceled) (foreign o.context_error))) rest

    unfoldable pub add_host_with_ready_check :
        ℕ
        → Option Traefik
        → Ref
        → ℤ
        → (Text → Action World Bool)
        → Action World (Traefik × Option Text)
    unfolding add_host check_host
    add_host_with_ready_check rounds proxy i port check = do
      (t, host) ← add_host proxy i port
      checked ← check_host rounds check host
      pure (t, checked)
