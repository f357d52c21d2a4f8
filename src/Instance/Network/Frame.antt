-- ===== src/Instance/Network/Frame.antt =====
-- The operations on the network change the network settings of one instance and the outside.
use knuu.Prelude.{ℕ, zero, suc, Option, none, some, List}
use knuu.Prelude.Int.{ℤ}
use knuu.Errors.{Result, ok, err, panic}
use knuu.Action.{Action}
use knuu.Action.Moves.{Moves, Moves-bind, Moves-attempt, moves_rules}
use knuu.Host.{Foreign, Os, Pod}
use knuu.K8s.Types.{KubeManager}
use knuu.Instance.World.{Ref, World, Instance}
use knuu.Instance.Access.Frame.{Frame, Each, Each-preorder, Moves-call, frame_rules}
use knuu.Instance.Network.{
  add_port_tcp, add_port_udp, deploy_service, patch_service, destroy_service, deploy_or_patch,
  deploy_or_patch_service, disable, enable, is_disabled, enable_if_disabled, get_ephemeral_ip,
  after_attempt, forward_attempts, port_or_fail, port_forward_tcp,
}

module _ ⦃f : Foreign⦄ {Q : Instance → Instance → Type 0} (q : Frame Q) where
  pub add_port_tcp-Each :
      ((a : Instance) (ps : List ℤ)
        → Q a (record a { network = record (a.network) { ports_tcp = ps } }))
      → (i : Ref) (port : ℤ) → Moves (Each Q) (add_port_tcp i port)
  unfolding add_port_tcp
  add_port_tcp-Each h i port = search (moves_rules, frame_rules, h) depth 14

  pub add_port_udp-Each :
      ((a : Instance) (ps : List ℤ)
        → Q a (record a { network = record (a.network) { ports_udp = ps } }))
      → (i : Ref) (port : ℤ) → Moves (Each Q) (add_port_udp i port)
  unfolding add_port_udp
  add_port_udp-Each h i port = search (moves_rules, frame_rules, h) depth 14

  module _ ⦃k : KubeManager⦄ where
    pub deploy_service-Each :
        (i : Ref) (tcp udp : List ℤ) → Moves (Each Q) (deploy_service i tcp udp)
    unfolding deploy_service
    deploy_service-Each i tcp udp = search (moves_rules, frame_rules, q.service) depth 14

    pub patch_service-Each : (i : Ref) (tcp udp : List ℤ) → Moves (Each Q) (patch_service i tcp udp)
    unfolding patch_service
    patch_service-Each i tcp udp = search (moves_rules, frame_rules, q.service) depth 14

    pub destroy_service-Each : (i : Ref) → Moves (Each Q) (destroy_service i)
    unfolding destroy_service
    destroy_service-Each i = search (moves_rules, frame_rules) depth 14

    deploy_or_patch-Each :
        (i : Ref) (tcp udp : List ℤ) (svc : Option f.Service)
        → Moves (Each Q) (deploy_or_patch i tcp udp svc)
    deploy_or_patch-Each i tcp udp none = search (moves_rules, deploy_service-Each) depth 14
    deploy_or_patch-Each i tcp udp (some svc) = search (moves_rules, patch_service-Each) depth 14

    pub deploy_or_patch_service-Each :
        (i : Ref) (tcp udp : List ℤ) → Moves (Each Q) (deploy_or_patch_service i tcp udp)
    unfolding deploy_or_patch_service
    deploy_or_patch_service-Each i tcp udp =
        search (moves_rules, frame_rules, deploy_or_patch-Each) depth 14

    pub disable-Each : (i : Ref) → Moves (Each Q) (disable i)
    unfolding disable
    disable-Each i = search (moves_rules, frame_rules) depth 14

    pub enable-Each : (i : Ref) → Moves (Each Q) (enable i)
    unfolding enable
    enable-Each i = search (moves_rules, frame_rules) depth 14

    pub is_disabled-Each : (i : Ref) → Moves (Each Q) (is_disabled i)
    unfolding is_disabled
    is_disabled-Each i = search (moves_rules, frame_rules) depth 14

    pub enable_if_disabled-Each : (i : Ref) → Moves (Each Q) (enable_if_disabled i)
    unfolding enable_if_disabled
    enable_if_disabled-Each i =
        search (moves_rules, frame_rules, enable-Each, is_disabled-Each) depth 14

    pub get_ephemeral_ip-Each : (i : Ref) → Moves (Each Q) (get_ephemeral_ip i)
    unfolding get_ephemeral_ip
    get_ephemeral_ip-Each i = search (moves_rules, frame_rules) depth 14

    module _ ⦃o : Os⦄ where
      after_attempt-Each :
          (left : ℕ) (rest : Action World (Unit {0})) (r : Result (Unit {0}))
          → Moves (Each Q) rest
          → Moves (Each Q) (after_attempt left rest r)
      unfolding after_attempt
      after_attempt-Each left rest (ok _) h = search (moves_rules, frame_rules)
      after_attempt-Each left rest (err _) h = search (moves_rules, frame_rules)
      after_attempt-Each left rest panic h = search (moves_rules, frame_rules)

      forward_attempts-Each :
          (left : ℕ) (pod : Pod) (here there : ℤ)
          → Moves (Each Q) (forward_attempts left pod here there)
      unfolding forward_attempts
      forward_attempts-Each zero pod here there = search (moves_rules, frame_rules)
      forward_attempts-Each (suc left) pod here there =
          Moves-bind (Each-preorder q) _ _ (Moves-attempt _ (Moves-call q _))
            (λ r. after_attempt-Each left _ r (forward_attempts-Each left pod here there))

      port_or_fail-Each : (r : Result ℤ) → Moves (Each Q) (port_or_fail r)
      unfolding port_or_fail
      port_or_fail-Each (ok port) = search (moves_rules, frame_rules)
      port_or_fail-Each (err e) = search (moves_rules, frame_rules)
      port_or_fail-Each panic = search (moves_rules, frame_rules)

      pub port_forward_tcp-Each : (i : Ref) (port : ℤ) → Moves (Each Q) (port_forward_tcp i port)
      unfolding port_forward_tcp
      port_forward_tcp-Each i port =
          search (moves_rules, frame_rules, forward_attempts-Each, port_or_fail-Each) depth 16
