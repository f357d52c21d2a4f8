-- ===== src/Instance/Monitoring.antt =====
-- monitoring.go: the three probes. Logs only reads a stream of the cluster.
pub mod Frame
use knuu.Prelude.{Option}
use knuu.Action.{Action, ◌>>=◌, ◌>>◌}
use knuu.Errors.Codes.{setting_probe_not_allowed}
use knuu.Host.{Foreign}
use knuu.Instance.World.{Ref, World, Instance, Monitoring}
use knuu.Instance.Access.{configurable, edit, require_state}

module _ ⦃f : Foreign⦄ where
  -- DeepCopy of a probe gives an equal probe.
  pub clone : Monitoring → Monitoring
  clone m = record {
    liveness_probe = m.liveness_probe;
    readiness_probe = m.readiness_probe;
    startup_probe = m.startup_probe;
  }

  unfoldable pub check_state_for_probe : Ref → Action World (Unit {0})
  check_state_for_probe i = require_state i configurable setting_probe_not_allowed

  abbrev edit_monitoring : Ref → (Monitoring → Monitoring) → Action World (Unit {0})
  edit_monitoring i g = edit i (λ inst. record inst { monitoring = g inst.monitoring })

  unfoldable pub set_liveness_probe : Ref → Option f.Probe → Action World (Unit {0})
  unfolding check_state_for_probe
  set_liveness_probe i probe = do
    check_state_for_probe i
    edit_monitoring i (λ m. record m { liveness_probe = probe })

  unfoldable pub set_readiness_probe : Ref → Option f.Probe → Action World (Unit {0})
  unfolding check_state_for_probe
  set_readiness_probe i probe = do
    check_state_for_probe i
    edit_monitoring i (λ m. record m { readiness_probe = probe })

  unfoldable pub set_startup_probe : Ref → Option f.Probe → Action World (Unit {0})
  unfolding check_state_for_probe
  set_startup_probe i probe = do
    check_state_for_probe i
    edit_monitoring i (λ m. record m { startup_probe = probe })
