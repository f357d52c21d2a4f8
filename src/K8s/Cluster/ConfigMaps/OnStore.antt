-- ===== src/K8s/Cluster/ConfigMaps/OnStore.antt =====
-- Each operation on config maps, on a server without faults.
use knuu.Prelude.{◌≡◌, refl, ap, ◌∙◌, true, false, inl, inr, none, some, Option-cases}
use knuu.Prelude.Text.{Text}
use knuu.Errors.{ok, err, raised, wrapped, foreign, not_found, already_exists, k8s_code}
use knuu.Errors.Codes.{client_terminated, configmap_does_not_exist, configmap_already_exists}
use knuu.Action.{pure, throw, raise, wrapping}
use knuu.Action.Stops.{bind_of_ok}
use knuu.Host.{Foreign}
use knuu.K8s.Types.{Labels}
use knuu.K8s.Objects.{ConfigMap}
use knuu.K8s.Validate.{Validation, fails_if, validate_config_map}
use knuu.K8s.Cluster.{Client}
use knuu.K8s.Cluster.Outcomes.{on_error_of_err, on_error_of_ok, passed}
use knuu.K8s.Cluster.Store.{IsStore, got, created, updated}
use knuu.K8s.Cluster.ConfigMaps.{
  prepare_config_map, config_maps, config_map_exists, delete_config_map, create_config_map,
  update_config_map, create_or_update_config_map,
}

module _ ⦃f : Foreign⦄ ⦃v : Validation⦄ where
  module _ (c : Client) (alive : c.terminated ≡ false)
      (st : IsStore (config_maps c) (λ cm. cm.meta.name)) where
    not_terminated : fails_if c.terminated client_terminated ≡ none
    not_terminated = rw alive refl

    module _ (name : Text) (labels contents : Labels)
        (valid : validate_config_map name labels contents ≡ none) (x : f.Outside) where
      abbrev pub made : ConfigMap
      made = prepare_config_map c.namespace name labels contents

      pub create_absent :
          st.view x name ≡ none
          → create_config_map c name labels contents x ≡ (st.put made x, ok made)
      unfolding create_config_map pure
      create_absent e =
          passed _ x _ not_terminated
          ∙ (passed _ x _ valid
              ∙ on_error_of_ok ((config_maps c).create made) _ _ x (st.put made x) made
                  (st.create_lem made x ∙ ap (created x (st.put made x) made) e))

      pub create_present :
          (old : ConfigMap)
          → st.view x name ≡ some old
          → create_config_map c name labels contents x
            ≡ (x, err (wrapped (k8s_code configmap_already_exists) (foreign already_exists)))
      unfolding create_config_map throw
      create_present old e =
          passed _ x _ not_terminated
          ∙ (passed _ x _ valid
              ∙ on_error_of_err ((config_maps c).create made) _ _ x x (foreign already_exists)
                  (st.create_lem made x ∙ ap (created x (st.put made x) made) e))

      pub update_absent :
          st.view x name ≡ none
          → update_config_map c name labels contents x
            ≡ (x, err (wrapped (k8s_code configmap_does_not_exist) (foreign not_found)))
      unfolding update_config_map throw
      update_absent e =
          passed _ x _ not_terminated
          ∙ (passed _ x _ valid
              ∙ on_error_of_err ((config_maps c).update made) _ _ x x (foreign not_found)
                  (st.update_lem made x ∙ ap (updated x (st.put made x) made) e))

      pub update_present :
          (old : ConfigMap)
          → st.view x name ≡ some old
          → update_config_map c name labels contents x ≡ (st.put made x, ok made)
      unfolding update_config_map pure
      update_present old e =
          passed _ x _ not_terminated
          ∙ (passed _ x _ valid
              ∙ on_error_of_ok ((config_maps c).update made) _ _ x (st.put made x) made
                  (st.update_lem made x ∙ ap (updated x (st.put made x) made) e))

      pub store_lem :
          create_or_update_config_map c name labels contents x ≡ (st.put made x, ok made)
      unfolding create_or_update_config_map pure
      store_lem = elim (Option-cases (st.view x name)) [
        | inl e ↦ on_error_of_err _ _ _ x x _ (update_absent e) ∙ create_absent e
        | inr (old, e) ↦ on_error_of_ok _ _ _ x (st.put made x) made (update_present old e)
      ]

    module _ (name : Text) (x : f.Outside) where
      pub exists_absent : st.view x name ≡ none → config_map_exists c name x ≡ (x, ok false)
      unfolding config_map_exists pure
      exists_absent e =
          on_error_of_err ((config_maps c).get name) _ _ x x (foreign not_found)
            (st.get_lem name x ∙ ap (got x) e)

      pub exists_present :
          (cm : ConfigMap) → st.view x name ≡ some cm → config_map_exists c name x ≡ (x, ok true)
      unfolding config_map_exists pure
      exists_present cm e =
          on_error_of_ok ((config_maps c).get name) _ _ x x cm (st.get_lem name x ∙ ap (got x) e)

      pub delete_absent :
          st.view x name ≡ none
          → delete_config_map c name x ≡ (x, err (raised (k8s_code configmap_does_not_exist)))
      unfolding delete_config_map raise
      delete_absent e = bind_of_ok _ _ x x false (exists_absent e)

      pub delete_present :
          (cm : ConfigMap)
          → st.view x name ≡ some cm
          → delete_config_map c name x ≡ (st.drop name x, ok tt)
      unfolding delete_config_map wrapping
      delete_present cm e =
          bind_of_ok _ _ x x true (exists_present cm e) ∙ rw (st.delete_lem name none x, e) refl
