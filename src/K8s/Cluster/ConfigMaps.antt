-- ===== src/K8s/Cluster/ConfigMaps.antt =====
-- configmap.go of pkg/k8s.
pub mod Model
pub mod OnStore
pub mod Refines
use knuu.Prelude.{Bool, true, false, if◌then◌else◌, none, []}
use knuu.Prelude.Text.{Text}
use knuu.Errors.{Error, wrapped, raised, is_missing, k8s_code}
use knuu.Errors.Codes.{
  getting_configmap, configmap_already_exists, creating_configmap, configmap_does_not_exist,
  updating_configmap, deleting_configmap,
}
use knuu.Action.{pure, raise, throw, wrapping, ◌>>=◌, ◌>>◌}
use knuu.Host.{Foreign, Call}
use knuu.K8s.Types.{Labels}
use knuu.K8s.Objects.{ConfigMap}
use knuu.K8s.Validate.{Validation, validate_config_map}
use knuu.K8s.Cluster.{is_config_map_missing, is_existing, on_error, check, Api, Client, alive}

abbrev pub prepare_config_map : Text → Text → Labels → Labels → ConfigMap
prepare_config_map namespace name labels contents = record {
  meta = record { namespace = namespace; name = name; labels = labels; annotations = [] };
  contents = contents;
}

module _ ⦃f : Foreign⦄ where
  abbrev pub config_maps : Client → Api ConfigMap
  config_maps c = c.clientset.config_maps c.namespace

  abbrev pub get_config_map : Client → Text → Call ConfigMap
  get_config_map c name = wrapping (k8s_code getting_configmap) ((config_maps c).get name)

  unfoldable pub config_map_exists : Client → Text → Call Bool
  config_map_exists c name =
      on_error ((config_maps c).get name)
        (λ e. if is_missing e then pure false else throw (wrapped (k8s_code getting_configmap) e))
        (λ cm. pure true)

  unfoldable pub delete_config_map : Client → Text → Call (Unit {0})
  unfolding config_map_exists
  delete_config_map c name = do
    exists ← config_map_exists c name
    if exists
        then wrapping (k8s_code deleting_configmap) ((config_maps c).delete name none)
        else raise (k8s_code configmap_does_not_exist)

  module _ ⦃v : Validation⦄ where
    unfoldable pub create_config_map : Client → Text → Labels → Labels → Call ConfigMap
    create_config_map c name labels contents = do
      alive c
      check (validate_config_map name labels contents)
      on_error ((config_maps c).create (prepare_config_map c.namespace name labels contents))
          (λ e.
            if is_existing e
            then throw (wrapped (k8s_code configmap_already_exists) e)
            else throw (wrapped (k8s_code creating_configmap) e))
          pure

    unfoldable pub update_config_map : Client → Text → Labels → Labels → Call ConfigMap
    update_config_map c name labels contents = do
      alive c
      check (validate_config_map name labels contents)
      on_error ((config_maps c).update (prepare_config_map c.namespace name labels contents))
          (λ e.
            if is_missing e
            then throw (wrapped (k8s_code configmap_does_not_exist) e)
            else throw (wrapped (k8s_code updating_configmap) e))
          pure

    unfoldable pub create_or_update_config_map : Client → Text → Labels → Labels → Call ConfigMap
    unfolding update_config_map create_config_map
    create_or_update_config_map c name labels contents =
        on_error (update_config_map c name labels contents)
          (λ e.
            if is_config_map_missing e
            then create_config_map c name labels contents
            else throw (wrapped (k8s_code updating_configmap) e))
          pure
