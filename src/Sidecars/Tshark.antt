-- ===== src/Sidecars/Tshark.antt =====
-- tshark.go and helpers.go of pkg/sidecars/tshark: the sidecar that captures packets. The interval is in
-- nanoseconds and not negative. Go walks the environment in any order; here it is walked in the order
-- of the list.
use knuu.Prelude.{ℕ, ◌/◌, Bool, true, false, ◌||◌, Option, none, some, [], ◌∷◌, ◌++◌, if◌then◌else◌}
use knuu.Prelude.Text.{Text, codes, is_empty, decimal}
use knuu.Errors.{tshark_code}
use knuu.Errors.Tshark.{
  TsharkCode, creating_tshark_collector_instance, setting_tshark_collector_image,
  setting_tshark_collector_memory, adding_tshark_collector_volume, setting_tshark_collector_env,
  adding_tshark_collector_capability, committing_tshark_collector_instance,
  tshark_collector_not_initialized, tshark_collector_invalid_volume_size,
  tshark_collector_s3_region_or_bucket_empty, setting_tshark_collector_cpu,
}
use knuu.Action.{Action, pure, raise, gets, each, wrapping, ◌>>=◌, ◌>>◌}
use knuu.Host.{Foreign, Os}
use knuu.K8s.Types.{Labels}
use knuu.Instance.World.{Ref, World, SidecarManager}
use knuu.Instance.Access.{self, deref}
use knuu.Instance.Build
use knuu.Instance.Resources
use knuu.Instance.Storage
use knuu.Instance.Security
use knuu.Instance.Naming.{clone_with_name}
use knuu.Sidecars.{on_world, edit_struct, new_sidecar}

abbrev pub default_image : Text
default_image = codes "ghcr.io/celestiaorg/tshark-s3:pr-11"

abbrev pub collector_name : Text → Text
collector_name prefix = prefix ++ codes "-tshark-collector"

abbrev pub show_bool : Bool → Text
show_bool true = codes "true"
show_bool false = codes "false"

module _ ⦃f : Foreign⦄ where
  pub record Tshark : Type 0 where
    pub own_instance : Option Ref
    pub image : Text
    pub volume_size : f.Quantity
    pub s3_access_key : Text
    pub s3_secret_key : Text
    pub s3_region : Text
    pub s3_bucket : Text
    pub create_bucket : Bool
    pub s3_key_prefix : Text
    pub s3_endpoint : Text
    pub upload_interval : ℕ

  abbrev pub in_case : {A : Type 0} → TsharkCode → Action World A → Action (Tshark × World) A
  in_case c m = wrapping (tshark_code c) (on_world m)

  unfoldable pub validate_config : Tshark → Option TsharkCode
  validate_config t =
      if f.equal_quantity t.volume_size f.zero_quantity
      then some tshark_collector_invalid_volume_size
      else if is_empty t.s3_region || is_empty t.s3_bucket
      then some tshark_collector_s3_region_or_bucket_empty
      else none

  abbrev pub accepted : Option TsharkCode → Action (Tshark × World) (Unit {0})
  accepted none = pure tt
  accepted (some c) = raise (tshark_code c)

  -- The environment of the collector, whose name is given.
  unfoldable pub env_vars : Tshark → Text → Labels
  env_vars t name =
      (codes "STORAGE_ACCESS_KEY_ID", t.s3_access_key)
      ∷ (codes "STORAGE_SECRET_ACCESS_KEY", t.s3_secret_key)
      ∷ (codes "STORAGE_REGION", t.s3_region)
      ∷ (codes "STORAGE_BUCKET_NAME", t.s3_bucket)
      ∷ (codes "STORAGE_KEY_PREFIX", t.s3_key_prefix)
      ∷ (codes "CAPTURE_FILE_NAME", name ++ codes ".pcapng")
      ∷ (codes "STORAGE_ENDPOINT", t.s3_endpoint)
      ∷ (codes "UPLOAD_INTERVAL", decimal (t.upload_interval / 1000000000))
      ∷ (codes "STORAGE_CREATE_BUCKET", show_bool t.create_bucket)
      ∷ []

  abbrev pub with_image : Tshark → Tshark
  with_image t = if is_empty t.image then record t { image = default_image } else t

  module _ ⦃o : Os⦄ where
    unfoldable pub initialize_tshark : Text → Action (Tshark × World) (Unit {0})
    unfolding validate_config new_sidecar env_vars
    initialize_tshark name_prefix = do
      verdict ← gets (λ p. validate_config p.0)
      accepted verdict
      edit_struct with_image
      i ←
          new_sidecar (λ r t. record t { own_instance = r })
            (tshark_code creating_tshark_collector_instance) (collector_name name_prefix)
      t ← gets (λ p. p.0)
      in_case setting_tshark_collector_image (Build.set_image i t.image [])
      in_case committing_tshark_collector_instance (Build.commit i)
      in_case setting_tshark_collector_cpu (Resources.set_cpu i (f.must_parse (codes "100m")))
      in_case setting_tshark_collector_memory
          (Resources.set_memory i (f.must_parse (codes "250Mi")) (f.must_parse (codes "250Mi")))
      in_case adding_tshark_collector_volume (Storage.add_volume i (codes "/tshark") t.volume_size)
      inst ← on_world (self i)
      in_case setting_tshark_collector_env
          (each (λ kv. Build.set_environment_variable i kv.0 kv.1) (env_vars t inst.name))
      in_case adding_tshark_collector_capability
          (Security.add_kubernetes_capability i (codes "NET_ADMIN"))

  abbrev pub ready_instance : Option Ref → Action (Tshark × World) (Unit {0})
  ready_instance none = raise (tshark_code tshark_collector_not_initialized)
  ready_instance (some i) = pure tt

  unfoldable pub pre_start_tshark : Action (Tshark × World) (Unit {0})
  pre_start_tshark = do i ← gets (λ p. p.0.own_instance); ready_instance i

  -- The clone has no image.
  unfoldable pub clone_tshark : ⦃m : SidecarManager⦄ → Text → Action (Tshark × World) Tshark
  clone_tshark name_prefix = do
    t ← gets (λ p. p.0)
    original ← deref t.own_instance
    j ← on_world (clone_with_name original (collector_name name_prefix))
    pure (record t { own_instance = some j; image = [] })
