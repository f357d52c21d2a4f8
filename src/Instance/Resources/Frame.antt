-- ===== src/Instance/Resources/Frame.antt =====
-- What setting the resources, and deploying and destroying them, leave alone.
use knuu.Prelude.{List, [], ◌∷◌}
use knuu.Prelude.Int.{ℤ}
use knuu.Action.Moves.{Moves, moves_rules}
use knuu.Host.{Foreign, Os}
use knuu.K8s.Types.{KubeManager}
use knuu.Instance.World.{Ref, Instance}
use knuu.Instance.Access.Frame.{Frame, Each, frame_rules}
use knuu.Instance.Network.Frame.{
  deploy_or_patch_service-Each, destroy_service-Each, enable_if_disabled-Each,
}
use knuu.Instance.Storage.Frame.{
  deploy_volume-Each, destroy_volume-Each, destroy_files-Each, deploy_files-Each,
}
use knuu.Instance.Sidecars.Frame.{sidecar-Each}
use knuu.Instance.Resources.{
  set_memory, set_cpu, all_ports, deploy_service, destroy_resources, deploy_storage,
  deploy_resources,
}

module _ ⦃f : Foreign⦄ {Q : Instance → Instance → Type 0} (q : Frame Q) where
  pub set_memory-Each :
      (i : Ref) (request limit : f.Quantity) → Moves (Each Q) (set_memory i request limit)
  unfolding set_memory
  set_memory-Each i request limit = search (moves_rules, frame_rules, q.resources)

  pub set_cpu-Each : (i : Ref) (request : f.Quantity) → Moves (Each Q) (set_cpu i request)
  unfolding set_cpu
  set_cpu-Each i request = search (moves_rules, frame_rules, q.resources)

  all_ports-Each :
      (tcp udp : List ℤ) (scs : List f.Manager) → Moves (Each Q) (all_ports tcp udp scs)
  unfolding all_ports
  all_ports-Each tcp udp [] = search (moves_rules, frame_rules)
  all_ports-Each tcp udp (sc ∷ scs) =
      search (moves_rules, frame_rules, sidecar-Each, λ (t u : List ℤ). all_ports-Each t u scs)
        depth 12

  module _ ⦃k : KubeManager⦄ (i : Ref) where
    deploy_service-Each : Moves (Each Q) (deploy_service i)
    unfolding deploy_service
    deploy_service-Each =
        search (moves_rules, frame_rules, all_ports-Each, deploy_or_patch_service-Each) depth 12

    pub destroy_resources-Each : Moves (Each Q) (destroy_resources i)
    unfolding destroy_resources
    destroy_resources-Each =
        search
          (
            moves_rules, frame_rules, destroy_volume-Each, destroy_files-Each, destroy_service-Each,
            enable_if_disabled-Each,
          )
          depth 16

    deploy_storage-Each : ⦃o : Os⦄ → Moves (Each Q) (deploy_storage i)
    unfolding deploy_storage
    deploy_storage-Each =
        search (moves_rules, frame_rules, deploy_volume-Each, deploy_files-Each) depth 16

    pub deploy_resources-Each : ⦃o : Os⦄ → Moves (Each Q) (deploy_resources i)
    unfolding deploy_resources
    deploy_resources-Each =
        search (moves_rules, frame_rules, deploy_service-Each, deploy_storage-Each) depth 16
