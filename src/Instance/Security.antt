-- ===== src/Instance/Security.antt =====
-- security.go: privileges, capabilities and policy rules.
pub mod Frame
use knuu.Prelude.{Bool, List, [], ◌∷◌, ◌++◌}
use knuu.Prelude.Text.{Text}
use knuu.Action.{Action, ◌>>=◌, ◌>>◌}
use knuu.Errors.Codes.{
  adding_policy_rule_not_allowed, setting_privileged_not_allowed, adding_capability_not_allowed,
  adding_capabilities_not_allowed,
}
use knuu.Host.{Foreign, PolicyRule}
use knuu.K8s.Types.{SecurityContext}
use knuu.Instance.World.{Ref, World, Instance, Security}
use knuu.Instance.Access.{configurable, edit, require_state}

-- make and copy: a new slice with the same items.
pub clone : Security → Security
clone s = record {
  privileged = s.privileged;
  capabilities_add = s.capabilities_add;
  policy_rules = s.policy_rules;
}

pub prepare_security_context : Security → SecurityContext
prepare_security_context s = record {
  privileged = s.privileged;
  capabilities_add = s.capabilities_add;
}

module _ ⦃f : Foreign⦄ where
  abbrev edit_security : Ref → (Security → Security) → Action World (Unit {0})
  edit_security i g = edit i (λ inst. record inst { security = g inst.security })

  unfoldable pub add_policy_rule : Ref → PolicyRule → Action World (Unit {0})
  add_policy_rule i rule = do
    require_state i configurable adding_policy_rule_not_allowed
    edit_security i (λ s. record s { policy_rules = s.policy_rules ++ rule ∷ [] })

  unfoldable pub set_privileged : Ref → Bool → Action World (Unit {0})
  set_privileged i privileged = do
    require_state i configurable setting_privileged_not_allowed
    edit_security i (λ s. record s { privileged = privileged })

  unfoldable pub add_kubernetes_capability : Ref → Text → Action World (Unit {0})
  add_kubernetes_capability i capability = do
    require_state i configurable adding_capability_not_allowed
    edit_security i (λ s. record s { capabilities_add = s.capabilities_add ++ capability ∷ [] })

  unfoldable pub add_kubernetes_capabilities : Ref → List Text → Action World (Unit {0})
  add_kubernetes_capabilities i capabilities = do
    require_state i configurable adding_capabilities_not_allowed
    edit_security i (λ s. record s { capabilities_add = s.capabilities_add ++ capabilities })
