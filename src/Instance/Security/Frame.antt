-- ===== src/Instance/Security/Frame.antt =====
-- The operations on the security settings change nothing else.
use knuu.Prelude.{Bool, List}
use knuu.Prelude.Text.{Text}
use knuu.Action.Moves.{Moves, moves_rules}
use knuu.Host.{Foreign, PolicyRule}
use knuu.Instance.World.{Ref, Instance}
use knuu.Instance.Access.Frame.{Frame, Each, frame_rules}
use knuu.Instance.Security.{
  add_policy_rule, set_privileged, add_kubernetes_capability, add_kubernetes_capabilities,
}

module _ ⦃f : Foreign⦄ {Q : Instance → Instance → Type 0} (q : Frame Q) (i : Ref) where
  pub add_policy_rule-Each : (rule : PolicyRule) → Moves (Each Q) (add_policy_rule i rule)
  unfolding add_policy_rule
  add_policy_rule-Each rule = search (moves_rules, frame_rules, q.security)

  pub set_privileged-Each : (privileged : Bool) → Moves (Each Q) (set_privileged i privileged)
  unfolding set_privileged
  set_privileged-Each privileged = search (moves_rules, frame_rules, q.security)

  pub add_capability-Each : (c : Text) → Moves (Each Q) (add_kubernetes_capability i c)
  unfolding add_kubernetes_capability
  add_capability-Each c = search (moves_rules, frame_rules, q.security)

  pub add_capabilities-Each : (cs : List Text) → Moves (Each Q) (add_kubernetes_capabilities i cs)
  unfolding add_kubernetes_capabilities
  add_capabilities-Each cs = search (moves_rules, frame_rules, q.security)
