-- ===== src/Knuu.antt =====
-- knuu.go and instance.go of pkg/knuu: the options, the scope, and the instance that takes the test down
-- when its time is over. New and CleanUp are in Starting.
pub mod Scope
pub mod Starting
use knuu.Prelude.{
  ℕ, ◌/◌, Bool, true, false, not, ◌&&◌, if◌then◌else◌, Option, none, some, List, [], ◌∷◌, ◌++◌,
}
use knuu.Prelude.Text.{Text, codes, is_empty, text_eq, join, decimal}
use knuu.Errors.{Code, Result, ok, err, panic, raised, knuu_code}
use knuu.Errors.Knuu.{
  KnuuCode, k8s_client_not_set, scope_mismatch, cannot_create_instance, cannot_set_image,
  cannot_commit_instance, cannot_set_start_command, cannot_add_policy_rule, cannot_start_instance,
}
use knuu.Action.{Action, pure, gets, wrapping, ◌>>=◌, ◌>>◌}
use knuu.Host.{Foreign, Os, PolicyRule}
use knuu.K8s.Types.{KubeManager}
use knuu.K8s.Sanitize.{sanitize_name}
use knuu.K8s.Cluster.{Client}
use knuu.K8s.Cluster.Namespaces.{delete_namespace}
use knuu.Instance.State.{InstanceType, timeout_handler_instance, type_name}
use knuu.Instance.World.{Ref, World, SidecarManager}
use knuu.Instance.Access.{edit}
use knuu.Instance.Build
use knuu.Instance.Security
use knuu.Instance.Execution
use knuu.Instance.Naming

-- The sanitized scope against the namespace of the client.
abbrev pub matches : Text → Option Text → Result (Unit {0})
matches namespace none = panic
matches namespace (some scope) =
    if text_eq scope namespace then ok tt else err (raised (knuu_code scope_mismatch))

-- The options: whether there is a Minio client, the namespace of the Kubernetes client if there is one,
-- and the scope.
unfoldable pub validate_options : Bool → Option Text → Text → Result (Unit {0})
validate_options has_minio none scope =
    if has_minio then err (raised (knuu_code k8s_client_not_set)) else ok tt
validate_options has_minio (some namespace) scope =
    if is_empty scope then ok tt else matches namespace (sanitize_name scope)

-- The scope before it is sanitized, with DefaultScope for that of the time.
abbrev pub given_scope : Option Text → Text → Text → Text
given_scope client scope default_scope =
    if is_empty scope
    then elim client [ none ↦ default_scope | some namespace ↦ namespace ]
    else scope

-- The scope that setDefaults leaves; none where SanitizeName panics.
unfoldable pub set_scope : Option Text → Text → Text → Option Text
set_scope client scope default_scope = sanitize_name (given_scope client scope default_scope)

-- The namespace of the client: of the one that is given, or of NewClient for the scope.
unfoldable pub client_namespace : Option Text → Text → Option Text
client_namespace none scope = sanitize_name scope
client_namespace (some namespace) scope = some namespace

-- What a timeout handler runs, given whole seconds, the scope and the namespace.
abbrev pub resources_of : Text → Text → Text
resources_of scope namespace =
    codes "all,pvc,netpol,roles,serviceaccounts,rolebindings,configmaps -l knuu.sh/scope="
    ++ (scope ++ (codes " -n " ++ namespace))

unfoldable pub timeout_commands : ℕ → Text → Text → List Text
timeout_commands seconds scope namespace =
    (codes "sleep " ++ decimal seconds)
    ∷ (codes "kubectl get "
        ++ (resources_of scope namespace
            ++ (codes " -o json | jq -r '.items[] | select(.metadata.labels.\"knuu.sh/type\" != \""
                ++ (type_name timeout_handler_instance
                    ++ (codes
                          "\") | \"\\(.kind)/\\(.metadata.name)\"' | xargs -r kubectl delete -n "
                        ++ namespace)))))
    ∷ (codes "kubectl delete namespace " ++ namespace)
    ∷ (codes "kubectl delete " ++ resources_of scope namespace)
    ∷ []

abbrev pub any_rule : PolicyRule
any_rule = record {
  verbs = codes "*" ∷ [];
  api_groups = codes "*" ∷ [];
  resources = codes "*" ∷ [];
  resource_names = [];
  non_resource_urls = [];
}

abbrev pub timeout_handler_image : Text
timeout_handler_image = codes "docker.io/bitnami/kubectl:latest"

abbrev pub in_case : {S A : Type 0} → KnuuCode → Action S A → Action S A
in_case c m = wrapping (knuu_code c) m

module _ ⦃f : Foreign⦄ where
  abbrev pub new_instance : Text → Action World Ref
  new_instance name = Naming.new name

  module _ ⦃k : KubeManager⦄ ⦃o : Os⦄ ⦃m : SidecarManager⦄ where
    -- The timeout is in nanoseconds; `rounds` bounds the wait of Start.
    unfoldable pub handle_timeout : ℕ → ℕ → Text → Action World (Option (Unit {0}))
    unfolding timeout_commands
    handle_timeout rounds timeout name = do
      i ← in_case cannot_create_instance (new_instance name)
      edit i (λ inst. record inst { instance_type = timeout_handler_instance })
      in_case cannot_set_image (Build.set_image i timeout_handler_image [])
      in_case cannot_commit_instance (Build.commit i)
      scope ← gets (λ w. w.scope)
      let command = join (codes " && ") (timeout_commands (timeout / 1000000000) scope k.namespace)
      in_case cannot_set_start_command
          (Build.set_start_command i (codes "sh" ∷ codes "-c" ∷ command ∷ []))
      in_case cannot_add_policy_rule (Security.add_policy_rule i any_rule)
      in_case cannot_start_instance (Execution.start rounds i)
