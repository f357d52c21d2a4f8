-- ===== src/K8s/Cluster/Custom.antt =====
-- custom_resource.go of pkg/k8s, and the checks of validate.go that it makes. A pointer that may be nil
-- is an Option; the version and resource that it is given is never nil.
use knuu.Prelude.{Bool, false, ◌||◌, if◌then◌else◌, Option, none, some, any}
use knuu.Prelude.Text.{Text, codes, is_empty}
use knuu.Errors.{is_missing, k8s_code}
use knuu.Errors.Codes.{
  creating_custom_resource, invalid_group_version_resource, custom_resource_object_nil,
  custom_resource_object_no_spec,
}
use knuu.Action.{pure, throw, crash, wrapping, ◌>>◌}
use knuu.Host.{Foreign, Call}
use knuu.K8s.Custom.{GroupVersionResource, Value, Fields, value_of, group_version, unstructured}
use knuu.K8s.Validate.{Validation, Verdict, fails_if, validate_custom_resource_name}
use knuu.K8s.Cluster.{on_error, check, Client, alive}

unfoldable pub validate_group_version_resource : GroupVersionResource → Verdict
validate_group_version_resource gvr =
    fails_if (is_empty gvr.group || is_empty gvr.version || is_empty gvr.resource)
      invalid_group_version_resource

abbrev pub spec_is_there : Option Value → Verdict
spec_is_there none = some custom_resource_object_no_spec
spec_is_there (some v) = none

unfoldable pub validate_custom_resource_object : Option Fields → Verdict
validate_custom_resource_object none = some custom_resource_object_nil
validate_custom_resource_object (some obj) = spec_is_there (value_of (codes "spec") obj)

abbrev pub spec_of : Option Fields → Option Value
spec_of none = none
spec_of (some obj) = value_of (codes "spec") obj

-- strings.EqualFold is a parameter.
module _ ⦃f : Foreign⦄ where
  pub record Folding : Type 0 where
    pub equal_fold : Text → Text → Bool

  -- The object is there after the checks, so that the case of a nil pointer is never reached.
  abbrev pub create_with_spec :
      Client → Text → GroupVersionResource → Option Value → Call (Unit {0})
  create_with_spec c name gvr none = crash
  create_with_spec c name gvr (some spec) = wrapping (k8s_code creating_custom_resource) (
      c.clientset.create_object gvr c.namespace
        (unstructured (group_version gvr) gvr.resource name c.namespace spec))

  unfoldable pub create_custom_resource :
      ⦃v : Validation⦄ → Client → Text → GroupVersionResource → Option Fields → Call (Unit {0})
  unfolding validate_group_version_resource validate_custom_resource_object
  create_custom_resource c name gvr obj = do
    alive c
    check (validate_custom_resource_name name)
    check (validate_group_version_resource gvr)
    check (validate_custom_resource_object obj)
    create_with_spec c name gvr (spec_of obj)

  unfoldable pub custom_resource_definition_exists :
      ⦃e : Folding⦄ → Client → GroupVersionResource → Call Bool
  custom_resource_definition_exists ⦃e⦄ c gvr =
      on_error (c.clientset.server_resources (group_version gvr))
        (λ error. if is_missing error then pure false else throw error)
        (λ rs. pure (any (λ r. e.equal_fold r.kind gvr.resource) rs))
