-- ===== src/K8s/Cluster/ConfigMaps/Refines.antt =====
-- The operations on config maps, on a server without faults, are those of a map from names.
use knuu.Prelude.{◌≡◌, refl, sym, ap, ◌∙◌, true, false, inl, inr, List, [], ◌∷◌, All, Option-cases}
use knuu.Prelude.Text.{Text}
use knuu.Errors.{Error, Result, ok, err}
use knuu.Action.{pure, ◌>>=◌}
use knuu.Action.Stops.{bind_of_err, bind_of_ok}
use knuu.Host.{Foreign, Call}
use knuu.K8s.Objects.{ConfigMap}
use knuu.K8s.Validate.{Validation}
use knuu.K8s.Cluster.{Client}
use knuu.K8s.Cluster.Store.{IsStore}
use knuu.K8s.Cluster.ConfigMaps.{
  prepare_config_map, config_maps, config_map_exists, delete_config_map, create_config_map,
  update_config_map, create_or_update_config_map,
}
use knuu.K8s.Cluster.ConfigMaps.Model.{
  with_config_map, without_config_map, ConfigOp, create, change, store, remove, ask, Answer, stored,
  removed, told, Outcome, on_create, on_change, on_remove, on_ask, specified, in_turn, run_config,
  IsAccepted,
}
use knuu.K8s.Cluster.ConfigMaps.OnStore.{
  create_absent, create_present, update_absent, update_present, store_lem, exists_absent,
  exists_present, delete_absent, delete_present,
}

module _ ⦃f : Foreign⦄ ⦃v : Validation⦄ (c : Client) (alive : c.terminated ≡ false)
    (st : IsStore (config_maps c) (λ cm. cm.meta.name)) where
  abbrev pub seen : f.Outside × Result Answer → Outcome
  seen (x, r) = (st.view x, r)

  seen_put :
      (cm : ConfigMap) (x : f.Outside) → st.view (st.put cm x) ≡ with_config_map cm (st.view x)
  seen_put cm x = λ i n. st.view_put cm x n i

  seen_drop :
      (name : Text) (x : f.Outside) → st.view (st.drop name x) ≡ without_config_map name (st.view x)
  seen_drop name x = λ i n. st.view_drop name x n i

  -- An operation does what the map says, if the call it makes and what it answers do.
  done :
      {A : Type 0} (m : Call A) (g : A → Answer) (x y : f.Outside) (a : A)
      → m x ≡ (y, ok a)
      → seen ((m >>= λ b. pure (g b)) x) ≡ (st.view y, ok (g a))
  unfolding pure
  done m g x y a h = ap seen (bind_of_ok m _ x y a h)

  failed :
      {A : Type 0} (m : Call A) (g : A → Answer) (x : f.Outside) (e : Error)
      → m x ≡ (x, err e)
      → seen ((m >>= λ b. pure (g b)) x) ≡ (st.view x, err e)
  failed m g x e h = ap seen (bind_of_err m _ x x e h)

  put_to :
      {A : Type 0} (m : Call A) (g : A → Answer) (x : f.Outside) (cm : ConfigMap) (a : A)
      → m x ≡ (st.put cm x, ok a)
      → seen ((m >>= λ b. pure (g b)) x) ≡ (with_config_map cm (st.view x), ok (g a))
  put_to m g x cm a h =
      done m g x (st.put cm x) a h ∙ ap (λ names. (names, ok (g a))) (seen_put cm x)

  run_config-specified :
      (op : ConfigOp) (x : f.Outside)
      → IsAccepted op
      → seen (run_config c op x) ≡ specified c.namespace op (st.view x)
  run_config-specified (create name labels contents) x h =
      let cm = prepare_config_map c.namespace name labels contents in
      let m = create_config_map c name labels contents in
      elim (Option-cases (st.view x name)) [
        | inl e ↦
            put_to m stored x cm cm (create_absent c alive st name labels contents h x e)
            ∙ ap (on_create cm (st.view x)) (sym e)
        | inr (old, e) ↦
            failed m stored x _ (create_present c alive st name labels contents h x old e)
            ∙ ap (on_create cm (st.view x)) (sym e)
      ]
  run_config-specified (change name labels contents) x h =
      let cm = prepare_config_map c.namespace name labels contents in
      let m = update_config_map c name labels contents in
      elim (Option-cases (st.view x name)) [
        | inl e ↦
            failed m stored x _ (update_absent c alive st name labels contents h x e)
            ∙ ap (on_change cm (st.view x)) (sym e)
        | inr (old, e) ↦
            put_to m stored x cm cm (update_present c alive st name labels contents h x old e)
            ∙ ap (on_change cm (st.view x)) (sym e)
      ]
  run_config-specified (store name labels contents) x h =
      let cm = prepare_config_map c.namespace name labels contents in
      put_to (create_or_update_config_map c name labels contents) stored x cm cm
        (store_lem c alive st name labels contents h x)
  run_config-specified (remove name) x h =
      let m = delete_config_map c name in
      elim (Option-cases (st.view x name)) [
        | inl e ↦
            failed m (λ u. removed) x _ (delete_absent c alive st name x e)
            ∙ ap (on_remove name (st.view x)) (sym e)
        | inr (old, e) ↦
            done m (λ u. removed) x (st.drop name x) tt (delete_present c alive st name x old e)
            ∙ (ap (λ names. (names, ok removed)) (seen_drop name x)
                ∙ ap (on_remove name (st.view x)) (sym e))
      ]
  run_config-specified (ask name) x h =
      let m = config_map_exists c name in
      elim (Option-cases (st.view x name)) [
        | inl e ↦
            done m told x x false (exists_absent c alive st name x e)
            ∙ ap (on_ask (st.view x)) (sym e)
        | inr (cm, e) ↦
            done m told x x true (exists_present c alive st name x cm e)
            ∙ ap (on_ask (st.view x)) (sym e)
      ]

  -- A client that is not terminated, on a server without faults, answers operations on config maps,
  -- one after the other, as a map from names does, where the checks accept what each is given: with
  -- the same results, failures included, and with the same config map under each name in the end.
  pub run_configs-specified :
      (ops : List ConfigOp) (x : f.Outside)
      → All IsAccepted ops
      → (st.view (in_turn (run_config c) ops x).0, (in_turn (run_config c) ops x).1)
        ≡ in_turn (specified c.namespace) ops (st.view x)
  run_configs-specified [] x h = refl
  run_configs-specified (op ∷ ops) x (h, hs) =
      let y = (run_config c op x).0 in
      ap (λ (names, rs). (names, (run_config c op x).1 ∷ rs)) (run_configs-specified ops y hs)
      ∙ ap
          (λ (names, r).
            let (last, rs) = in_turn (specified c.namespace) ops names in (last, r ∷ rs))
          (run_config-specified op x h)
