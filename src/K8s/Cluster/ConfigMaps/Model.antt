-- ===== src/K8s/Cluster/ConfigMaps/Model.antt =====
-- Operations on config maps, and the map from names that they stand for.
use knuu.Prelude.{◌≡◌, Bool, true, false, if◌then◌else◌, Option, none, some, List, [], ◌∷◌}
use knuu.Prelude.Text.{Text, text_eq}
use knuu.Errors.{Result, ok, err, raised, wrapped, foreign, not_found, already_exists, k8s_code}
use knuu.Errors.Codes.{configmap_does_not_exist, configmap_already_exists}
use knuu.Action.{pure, ◌>>=◌, ◌>>◌}
use knuu.Host.{Foreign, Call}
use knuu.K8s.Types.{Labels}
use knuu.K8s.Objects.{ConfigMap}
use knuu.K8s.Validate.{Validation, validate_config_map}
use knuu.K8s.Cluster.{Client}
use knuu.K8s.Cluster.ConfigMaps.{
  prepare_config_map, config_map_exists, delete_config_map, create_config_map, update_config_map,
  create_or_update_config_map,
}

-- The map.
abbrev pub Names : Type 0
Names = Text → Option ConfigMap

abbrev pub with_config_map : ConfigMap → Names → Names
with_config_map cm m n = if text_eq cm.meta.name n then some cm else m n

abbrev pub without_config_map : Text → Names → Names
without_config_map name m n = if text_eq name n then none else m n

pub data ConfigOp : Type 0 where
  create change store : Text → Labels → Labels → ConfigOp
  remove ask : Text → ConfigOp

pub data Answer : Type 0 where
  stored : ConfigMap → Answer
  removed : Answer
  told : Bool → Answer

abbrev pub Outcome : Type 0
Outcome = Names × Result Answer

abbrev pub on_create : ConfigMap → Names → Option ConfigMap → Outcome
on_create cm m none = (with_config_map cm m, ok (stored cm))
on_create cm m (some old) =
    (m, err (wrapped (k8s_code configmap_already_exists) (foreign already_exists)))

abbrev pub on_change : ConfigMap → Names → Option ConfigMap → Outcome
on_change cm m none = (m, err (wrapped (k8s_code configmap_does_not_exist) (foreign not_found)))
on_change cm m (some old) = (with_config_map cm m, ok (stored cm))

abbrev pub on_remove : Text → Names → Option ConfigMap → Outcome
on_remove name m none = (m, err (raised (k8s_code configmap_does_not_exist)))
on_remove name m (some old) = (without_config_map name m, ok removed)

abbrev pub on_ask : Names → Option ConfigMap → Outcome
on_ask m none = (m, ok (told false))
on_ask m (some cm) = (m, ok (told true))

abbrev pub specified : Text → ConfigOp → Names → Outcome
specified namespace (create name labels contents) m =
    on_create (prepare_config_map namespace name labels contents) m (m name)
specified namespace (change name labels contents) m =
    on_change (prepare_config_map namespace name labels contents) m (m name)
specified namespace (store name labels contents) m =
    let cm = prepare_config_map namespace name labels contents in
    (with_config_map cm m, ok (stored cm))
specified namespace (remove name) m = on_remove name m (m name)
specified namespace (ask name) m = on_ask m (m name)

module _ {S A B : Type 0} where
  -- Operations one after the other, whatever each returns, and their results.
  abbrev pub in_turn : (A → S → S × B) → List A → S → S × List B
  in_turn g [] s = (s, [])
  in_turn g (a ∷ more) s = let (t, b) = g a s in let (u, bs) = in_turn g more t in (u, b ∷ bs)

module _ ⦃f : Foreign⦄ ⦃v : Validation⦄ where
  abbrev pub run_config : Client → ConfigOp → Call Answer
  run_config c (create name labels contents) = do
    cm ← create_config_map c name labels contents
    pure (stored cm)
  run_config c (change name labels contents) = do
    cm ← update_config_map c name labels contents
    pure (stored cm)
  run_config c (store name labels contents) = do
    cm ← create_or_update_config_map c name labels contents
    pure (stored cm)
  run_config c (remove name) = do delete_config_map c name; pure removed
  run_config c (ask name) = do exists ← config_map_exists c name; pure (told exists)

  -- The checks accept what the operation is given.
  abbrev pub IsAccepted : ConfigOp → Type 0
  IsAccepted (create name labels contents) = validate_config_map name labels contents ≡ none
  IsAccepted (change name labels contents) = validate_config_map name labels contents ≡ none
  IsAccepted (store name labels contents) = validate_config_map name labels contents ≡ none
  IsAccepted (remove name) = Unit
  IsAccepted (ask name) = Unit
