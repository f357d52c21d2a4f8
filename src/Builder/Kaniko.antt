-- ===== src/Builder/Kaniko.antt =====
-- pkg/builder/kaniko: images that are built by a job in the cluster. The archive of a directory goes
-- through Minio; packages archive/tar and compress/gzip are parameters.
pub mod Jobs
pub mod Watching
use knuu.Prelude.{
  ℕ, zero, suc, Bool, true, false, ◌||◌, if◌then◌else◌, Option, none, some, List, [], ◌∷◌, ◌++◌,
  map, take,
}
use knuu.Prelude.Text.{Text, codes, is_empty}
use knuu.Prelude.Int.{ℤ, pos, ltb_ℤ, eqb_ℤ}
use knuu.Errors.{Error, Fault, Result, ok, err, panic, wrapped, foreign, other, kaniko_code}
use knuu.Errors.Kaniko.{
  KanikoCode, build_failed, creating_job, generating_uuid, getting_container_logs,
  getting_pod_from_job, listing_pods, no_containers_found, no_pods_found, preparing_job,
  waiting_job_completion, watching_channel_close_unexpectedly, watching_job, context_cancelled,
  mounting_dir, parsing_quantity,
}
use knuu.Action.{Action, pure, raise, throw, crash, wrapping, each, ◌>>=◌, ◌>>◌}
use knuu.Host.{Foreign, Os, Parser, WalkEntry, CacheOptions, Call}
use knuu.K8s.Objects.{
  Mount, empty_dir, PodVolume, Container, PodObject, Job, JobEvent, channel_closed, other_object,
  context_done, job_event,
}
use knuu.K8s.Cluster.{Client}
use knuu.Names.{new_random_k8}
use knuu.Minio.{ObjectStore, Minio, Session, push, get_url, on_pointer}
use knuu.Builder.{Arg, get_key, get_value, is_dir_context, get_dir_from_build_context}

-- builder.BuilderOptions; `cache` is none for the nil pointer.
pub record BuilderOptions : Type 0 where
  pub image_name : Text
  pub build_context : Text
  pub args : List Arg
  pub destination : Text
  pub cache : Option CacheOptions

abbrev pub in_case : {S A : Type 0} → KanikoCode → Action S A → Action S A
in_case c m = wrapping (kaniko_code c) m

abbrev pub optional_arg : Text → Text → List Text
optional_arg key value = if is_empty value then [] else (key ++ value) ∷ []

abbrev pub cache_args : Option CacheOptions → List Text
cache_args none = []
cache_args (some cache) =
    if cache.enabled
    then codes "--cache=true"
      ∷ (optional_arg (codes "--cache-dir=") cache.dir
          ++ optional_arg (codes "--cache-repo=") cache.repo)
    else []

unfoldable pub prepare_args : BuilderOptions → List Text
prepare_args b =
    (codes "--context=" ++ b.build_context)
    ∷ (codes "--destination=" ++ b.destination)
    ∷ (cache_args b.cache ++ map (λ a. get_key a ++ (codes "=" ++ get_value a)) b.args)

abbrev pub workspace_dir : Text
workspace_dir = codes "/workspace"

abbrev pub workspace_volume_name : Text
workspace_volume_name = codes "workspace"

abbrev pub archive_file_path : Text
archive_file_path = workspace_dir ++ codes "/archive.tar.gz"

abbrev pub workspace_mount : Mount
workspace_mount = record { name = workspace_volume_name; mount_path = workspace_dir; sub_path = [] }

abbrev pub build_bucket : Text
build_bucket = codes "kaniko"

module _ ⦃f : Foreign⦄ where
  -- The tar writer on the gzip writer on the buffer: what it holds is outside. `write_header` makes the
  -- header of the file at a path, sets its name and writes it; `finish` closes both writers and gives
  -- the bytes.
  pub record Archiver : Type 0 where
    pub begin : Call (Unit {0})
    pub write_header : Text → Text → Call (Unit {0})
    pub copy_in : Text → Call (Unit {0})
    pub finish : Call Text

  abbrev pub container_of : Text → Text → List Text → List Text → List Mount → Container
  container_of name image command args mounts = record {
    name = name;
    image = image;
    image_pull_policy = [];
    command = command;
    args = args;
    env = [];
    mounts = mounts;
    resources = none;
    ports = [];
    liveness_probe = none;
    readiness_probe = none;
    startup_probe = none;
    security_context = none;
    run_as_user = none;
  }

  abbrev pub kaniko_job : Text → f.Quantity → BuilderOptions → Job
  kaniko_job name storage b = record {
    name = name;
    parallelism = pos 1;
    backoff_limit = pos 5;
    init_containers = [];
    containers =
        container_of (codes "kaniko-container") (codes "gcr.io/kaniko-project/executor:latest") []
          (prepare_args b) []
        ∷ [];
    ephemeral_storage = storage;
    restart_policy = codes "Never";
    volumes = [];
    succeeded = pos 0;
    failed = pos 0;
  }

  abbrev pub download_container : Text → Container
  download_container s3_url =
      container_of (codes "download-container") (codes "curlimages/curl:latest")
        (codes "/bin/sh" ∷ codes "-c" ∷ [])
        ((codes "curl -L -o " ++ (archive_file_path ++ (codes " '" ++ (s3_url ++ codes "'")))) ∷ [])
        (workspace_mount ∷ [])

  abbrev pub with_archive : Container → Container
  with_archive c = record c {
    mounts = c.mounts ++ workspace_mount ∷ [];
    args = c.args ++ (codes "--context=tar://" ++ archive_file_path) ∷ [];
  }

  -- Containers[0], read without a test that there is one.
  abbrev pub with_first_container : Job → Text → List Container → Result Job
  with_first_container job s3_url [] = panic
  with_first_container job s3_url (c ∷ cs) = ok (record job {
    init_containers = job.init_containers ++ download_container s3_url ∷ [];
    volumes = job.volumes ++ record { name = workspace_volume_name; source = empty_dir } ∷ [];
    containers = with_archive c ∷ cs;
  })

  abbrev pub mounted : Job → Text → Result Job
  mounted job s3_url = with_first_container job s3_url job.containers

  abbrev pub is_complete : Job → Bool
  is_complete j = ltb_ℤ (pos 0) j.succeeded || ltb_ℤ (pos 0) j.failed

  -- The loop of waitForJobCompletion; none means that the rounds ran out.
  abbrev pub on_event : JobEvent → Call (Option Job) → Call (Option Job)
  on_event channel_closed rest = raise (kaniko_code watching_channel_close_unexpectedly)
  on_event other_object rest = rest
  on_event (job_event j) rest = if is_complete j then pure (some j) else rest
  on_event context_done rest = raise (kaniko_code context_cancelled)

  unfoldable pub wait_events : ℕ → Client → Call (Option Job)
  wait_events zero c = pure none
  wait_events (suc rounds) c = do
    let rest = wait_events rounds c
    event ← c.clientset.next_job_event
    on_event event rest

  unfoldable pub wait_for_job_completion : ℕ → Client → Job → Call (Option Job)
  unfolding wait_events
  wait_for_job_completion rounds c job = do
    in_case watching_job (c.clientset.watch_jobs c.namespace (codes "metadata.name=" ++ job.name))
    wait_events rounds c

  abbrev pub pod_of_list : Job → List PodObject → Call PodObject
  pod_of_list job [] =
      throw (wrapped (kaniko_code no_pods_found) (foreign (other (codes "job: " ++ job.name))))
  pod_of_list job (pod ∷ pods) = pure pod

  abbrev pub first_pod_from_job : Client → Job → Call PodObject
  first_pod_from_job c job = do
    pods ← in_case listing_pods (c.clientset.list_pods c.namespace (codes "job-name=" ++ job.name))
    pod_of_list job pods

  abbrev pub logs_of : Client → PodObject → List Container → Call Text
  logs_of c pod [] =
      throw (
        wrapped (kaniko_code no_containers_found)
          (foreign (other (codes "pod: " ++ pod.meta.name))))
  logs_of c pod (container ∷ more) = c.clientset.pod_logs c.namespace pod.meta.name container.name

  abbrev pub container_logs : Client → PodObject → Call Text
  container_logs c pod = logs_of c pod pod.spec.containers

  -- if err != nil { return err } of the walk, and the rest of its function.
  module _ ⦃o : Os⦄ ⦃r : Archiver⦄ where
    abbrev pub add_content : Bool → Text → Call (Unit {0})
    add_content true path = pure tt
    add_content false path = do o.open_file path; r.copy_in path

    abbrev pub add_entry : Text → WalkEntry → Option Fault → Call (Unit {0})
    add_entry dir entry (some fault) = throw (foreign fault)
    add_entry dir entry none = do
      rel_path ← o.path_rel dir entry.path
      r.write_header entry.path rel_path
      add_content entry.is_dir entry.path

    unfoldable pub create_tar_gz : Text → Call Text
    create_tar_gz src_dir = do
      r.begin
      entries ← o.walk src_dir
      each (λ entry. add_entry src_dir entry entry.failure) entries
      r.finish

  -- The builder, with the pointer to its Minio client, which is nil if there is none.
  module _ ⦃s : ObjectStore⦄ where
    abbrev pub BuildState : Type 0
    BuildState = Option Minio × f.Outside

    unfoldable pub call : {A : Type 0} → Call A → Action BuildState A
    call g (m, x) = let (y, r) = g x in ((m, y), r)

    abbrev pub returned : {A : Type 0} → Result A → Action BuildState A
    returned r t = (t, r)

    -- What Build returns when it has the logs: without an error, or beside ErrBuildFailed.
    pub data Built : Type 0 where
      built_with failed_with : Text → Built

    abbrev pub verdict_of : Job → Text → Built
    verdict_of job logs = if eqb_ℤ job.succeeded (pos 0) then failed_with logs else built_with logs

    module _ ⦃o : Os⦄ ⦃r : Archiver⦄ where
      unfoldable pub mount_dir : Text → Job → Action BuildState Job
      unfolding call create_tar_gz
      mount_dir ctx job = do
        archive_data ← call (create_tar_gz (get_dir_from_build_context ctx))
        let content_name = o.sha256_hex archive_data
        on_pointer (push archive_data content_name build_bucket)
        s3_url ← on_pointer (get_url content_name build_bucket)
        returned (mounted job s3_url)

      unfoldable pub prepare_job : ⦃p : Parser⦄ → BuilderOptions → Action BuildState Job
      unfolding call mount_dir new_random_k8
      prepare_job ⦃p⦄ b = do
        name ← in_case generating_uuid (call (new_random_k8 (codes "kaniko-build-job")))
        storage ← in_case parsing_quantity (call (p.parse_quantity (codes "10Gi")))
        let job = kaniko_job name storage b
        if is_dir_context b.build_context
            then in_case mounting_dir (mount_dir b.build_context job)
            else pure job

      unfoldable pub finish_build : Client → Job → Action BuildState Built
      unfolding call
      finish_build c job = do
        pod ← in_case getting_pod_from_job (call (first_pod_from_job c job))
        logs ← in_case getting_container_logs (call (container_logs c pod))
        pure (verdict_of job logs)

      unfoldable pub build :
          ⦃p : Parser⦄ → ℕ → Client → BuilderOptions → Action BuildState (Option Built)
      unfolding prepare_job call wait_for_job_completion finish_build
      build rounds c b = do
        job ← in_case preparing_job (prepare_job b)
        created ← in_case creating_job (call (c.clientset.create_job c.namespace job))
        waited ← in_case waiting_job_completion (call (wait_for_job_completion rounds c created))
        elim waited [
          | none ↦ pure none
          | some done ↦ do result ← finish_build c done; pure (some result)
        ]
