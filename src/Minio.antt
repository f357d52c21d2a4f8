-- ===== src/Minio.antt =====
-- pkg/minio/minio.go: the object store that is deployed in the cluster. The client of the store,
-- package minio-go, is a parameter.
pub mod Deploying
pub mod Buckets
pub mod Locking
use knuu.Prelude.{ℕ, Bool, true, false, if◌then◌else◌, Option, none, some, List, [], ◌∷◌, ◌++◌}
use knuu.Prelude.Text.{Text, codes, text_has_eq, text_eq}
use knuu.Prelude.Strings.{show_int}
use knuu.Prelude.Int.{ℤ, pos}
use knuu.Errors.{Error, Result, ok, err, panic, raised, wrapped, minio_code}
use knuu.Errors.Minio.{
  MinioCode, minio_failed_to_get_endpoint, minio_failed_to_initialize_client,
  minio_failed_to_create_bucket, minio_failed_to_upload_data,
  minio_failed_to_find_file_before_deletion, minio_failed_to_delete_file,
  minio_failed_to_generate_presigned_url, minio_failed_to_check_bucket,
  minio_client_not_initialized, minio_not_initialized,
}
use knuu.Action.{Action, pure, raise, crash, wrapping, gets, modify, ◌>>=◌, ◌>>◌}
use knuu.Host.{Foreign, Os, Call}
use knuu.K8s.Cluster.{Client}
use knuu.K8s.Cluster.Services.Waiting.{Dialer}
use knuu.Minio.Deploying.{root_user, root_password, deploy_minio, get_endpoint, in_case}

-- *miniogo.Client, and its calls, which take a bucket and the path of an object in it. `connect` is
-- miniogo.New of an endpoint, a key and a secret.
module _ ⦃f : Foreign⦄ where
  pub record ObjectStore : Type 1 where
    pub Handle : Type 0
    pub connect : Text → Text → Text → Call Handle
    pub bucket_exists : Handle → Text → Call Bool
    pub make_bucket : Handle → Text → Call (Unit {0})
    pub put_object : Handle → Text → Text → Text → Call (Unit {0})
    pub stat_object : Handle → Text → Text → Call (Unit {0})
    pub remove_object : Handle → Text → Text → Call (Unit {0})
    -- PresignedGetObject for a duration in nanoseconds, as text
    pub presigned_get_object : Handle → Text → Text → ℤ → Call Text

pub record Config : Type 0 where
  pub endpoint : Text
  pub access_key_id : Text
  pub secret_access_key : Text

abbrev pub expiration : ℤ
expiration = pos 86400000000000

module _ ⦃f : Foreign⦄ ⦃s : ObjectStore⦄ where
  -- `mutexes` are the keys of muMap, none for the nil map. A call unlocks what it locks before it
  -- returns, so that between calls every mutex is free.
  pub record Minio : Type 0 where
    pub client : Option s.Handle
    pub k8s_client : Client
    pub mutexes : Option (List Text)

  -- A method changes the object that its receiver points to, and the outside.
  pub record Session : Type 0 where
    pub minio : Minio
    pub outside : f.Outside

  abbrev pub made_in : {A : Type 0} → Session → f.Outside × Result A → Session × Result A
  made_in m (x, r) = (record m { outside = x }, r)

  unfoldable pub call : {A : Type 0} → Call A → Action Session A
  call g m = made_in m (g m.outside)

  abbrev pub has : List Text → Text → Bool
  has [] bucket = false
  has (b ∷ bs) bucket = if text_eq b bucket then true else has bs bucket

  abbrev pub with_mutex : Text → Option (List Text) → Option (List Text)
  with_mutex bucket none = some (bucket ∷ [])
  with_mutex bucket (some bs) = if has bs bucket then some bs else some (bucket ∷ bs)

  abbrev pub add_mutex : Text → Session → Session
  add_mutex bucket m = record m {
    minio = record m.minio { mutexes = with_mutex bucket m.minio.mutexes };
  }

  -- A nil client is not initialized.
  abbrev pub initialized : Option s.Handle → Action Session s.Handle
  initialized none = raise (minio_code minio_client_not_initialized)
  initialized (some h) = pure h

  -- What is done under the mutex.
  unfoldable pub ensure_bucket : Text → s.Handle → Action Session (Unit {0})
  unfolding call
  ensure_bucket bucket h = do
    exists ← wrapping (minio_code minio_failed_to_check_bucket) (call (s.bucket_exists h bucket))
    if exists then pure tt else call (s.make_bucket h bucket)

  unfoldable pub create_bucket_if_not_exists : Text → Action Session (Unit {0})
  unfolding ensure_bucket
  create_bucket_if_not_exists bucket = do
    client ← gets (λ m. m.minio.client)
    h ← initialized client
    modify (add_mutex bucket)
    ensure_bucket bucket h

  -- A nil pointer is read where the client is nil.
  abbrev pub with_client : {A : Type 0} → (s.Handle → Call A) → Action Session A
  with_client g = do
    client ← gets (λ m. m.minio.client)
    elim client [ none ↦ crash | some h ↦ call (g h) ]

  -- The methods on a receiver that is not nil.
  unfoldable pub push : Text → Text → Text → Action Session (Unit {0})
  unfolding create_bucket_if_not_exists call
  push content path bucket = do
    wrapping (minio_code minio_failed_to_create_bucket) (create_bucket_if_not_exists bucket)
    wrapping (minio_code minio_failed_to_upload_data)
        (with_client (λ h. s.put_object h bucket path content))

  unfoldable pub delete : Text → Text → Action Session (Unit {0})
  unfolding call
  delete path bucket = do
    wrapping (minio_code minio_failed_to_find_file_before_deletion)
        (with_client (λ h. s.stat_object h bucket path))
    wrapping (minio_code minio_failed_to_delete_file)
        (with_client (λ h. s.remove_object h bucket path))

  unfoldable pub get_url : Text → Text → Action Session Text
  unfolding call
  get_url path bucket =
      wrapping (minio_code minio_failed_to_generate_presigned_url)
        (with_client (λ h. s.presigned_get_object h bucket path expiration))

  unfoldable pub get_configs : Action Session Config
  unfolding call
  get_configs = do
    c ← gets (λ m. m.minio.k8s_client)
    endpoint ← in_case minio_failed_to_get_endpoint (call (get_endpoint c))
    pure (record {
      endpoint = endpoint;
      access_key_id = root_user;
      secret_access_key = root_password;
    })

  -- if m == nil { return ErrMinioNotInitialized }, and what m holds afterwards.
  abbrev pub on_pointer : {A : Type 0} → Action Session A → Action (Option Minio × f.Outside) A
  on_pointer g (none, x) = ((none, x), err (raised (minio_code minio_not_initialized)))
  on_pointer g (some minio, x) =
      let (m, r) = g (record { minio = minio; outside = x }) in ((some m.minio, m.outside), r)

  module _ ⦃o : Os⦄ ⦃n : Dialer⦄ where
    -- `rounds` bound the two waits of deployMinio; none means that they ran out.
    unfoldable pub new_minio : ℕ → Client → Call (Option Minio)
    new_minio rounds c = do
      deployed ← deploy_minio rounds c
      elim deployed [
        | none ↦ pure none
        | some u ↦ do
          endpoint ← in_case minio_failed_to_get_endpoint (get_endpoint c)
          h ← in_case minio_failed_to_initialize_client (s.connect endpoint root_user root_password)
          pure (some (record { client = some h; k8s_client = c; mutexes = none }))
      ]
