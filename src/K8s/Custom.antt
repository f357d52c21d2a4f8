-- ===== src/K8s/Custom.antt =====
-- Custom resources: schema.GroupVersionResource, metav1.APIResource, and the values of a Go
-- map[string]interface{} that the program builds.
use knuu.Prelude.{if◌then◌else◌, Option, none, some, ◌++◌}
use knuu.Prelude.Text.{Text, codes, text_eq}
use knuu.Prelude.Int.{ℤ}

pub record GroupVersionResource : Type 0 where
  pub group : Text
  pub version : Text
  pub resource : Text

pub record ApiResource : Type 0 where
  pub name : Text
  pub kind : Text

mutual
  pub data Value : Type 0 where
    text : Text → Value
    number : ℤ → Value
    list : Values → Value
    object : Fields → Value

  pub data Values : Type 0 where
    nothing : Values
    also : Value → Values → Values

  pub data Fields : Type 0 where
    no_field : Fields
    field : Text → Value → Fields → Fields

abbrev pub one : Value → Value
one v = list (also v nothing)

-- The value of a key.
abbrev pub value_of : Text → Fields → Option Value
value_of key no_field = none
value_of key (field k v more) = if text_eq k key then some v else value_of key more

-- GroupVersion().String() of a group that is not empty.
abbrev pub group_version : GroupVersionResource → Text
group_version gvr = gvr.group ++ (codes "/" ++ gvr.version)

abbrev pub unstructured : Text → Text → Text → Text → Value → Value
unstructured api_version kind name namespace spec = object (
    field (codes "apiVersion") (text api_version) (
      field (codes "kind") (text kind) (
        field (codes "metadata")
          (object (
            field (codes "name") (text name) (field (codes "namespace") (text namespace) no_field)))
          (field (codes "spec") spec no_field))))
