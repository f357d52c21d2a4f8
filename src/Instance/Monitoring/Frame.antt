-- ===== src/Instance/Monitoring/Frame.antt =====
-- The operations on the probes change nothing else.
use knuu.Prelude.{Option}
use knuu.Action.Moves.{Moves, moves_rules}
use knuu.Host.{Foreign}
use knuu.Instance.World.{Ref, Instance}
use knuu.Instance.Access.Frame.{Frame, Each, frame_rules}
use knuu.Instance.Monitoring.{set_liveness_probe, set_readiness_probe, set_startup_probe}

module _ ⦃f : Foreign⦄ {Q : Instance → Instance → Type 0} (q : Frame Q) (i : Ref) where
  pub set_liveness_probe-Each : (p : Option f.Probe) → Moves (Each Q) (set_liveness_probe i p)
  unfolding set_liveness_probe
  set_liveness_probe-Each p = search (moves_rules, frame_rules, q.monitoring)

  pub set_readiness_probe-Each : (p : Option f.Probe) → Moves (Each Q) (set_readiness_probe i p)
  unfolding set_readiness_probe
  set_readiness_probe-Each p = search (moves_rules, frame_rules, q.monitoring)

  pub set_startup_probe-Each : (p : Option f.Probe) → Moves (Each Q) (set_startup_probe i p)
  unfolding set_startup_probe
  set_startup_probe-Each p = search (moves_rules, frame_rules, q.monitoring)
