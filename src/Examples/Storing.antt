-- ===== src/Examples/Storing.antt =====
-- The theorems on Minio and Kaniko at concrete inputs: a store that keeps its buckets and files in lists.
use knuu.Prelude.{
  ℕ, zero, suc, ◌+◌, ◌≤◌, ◌<◌, ◌≡◌, refl, ap, Bool, true, false, if◌then◌else◌, Option, none, some,
  List, [], ◌∷◌, arith,
}
use knuu.Prelude.Text.{Text, codes, text_eq, text_eq_iff}
use knuu.Prelude.Int.{pos, ltb_ℤ}
use knuu.Errors.{ok, other}
use knuu.Host.{Parser}
use knuu.K8s.Objects.{ServiceObject, Deployment, Job, job_event, other_object}
use knuu.K8s.Cluster.{Client}
use knuu.K8s.Cluster.Store.{got, updated}
use knuu.K8s.Cluster.Services.Kept.{Keeps}
use knuu.Minio.{ObjectStore, Session, push, delete}
use knuu.Minio.Buckets.{found, is_same, IsAnswering, session, push-delete}
use knuu.Minio.Deploying.{
  service_name, minio_service, minio_deployment, create_or_update_service, wait_for_minio,
}
use knuu.Minio.Deploying.Serving.{create_or_update_service-stores}
use knuu.Minio.Deploying.Waiting.{wait_for_minio-returns}
use knuu.Minio.Locking.{
  looked, wants, locked, seen, leaving, Shared, set, moved, look, reuse, lock, ask, make, Reach,
  here, after, beginning, bit,
}
use knuu.Minio.Locking.Once.{made_once}
use knuu.Action.Values.{OfValue}
use knuu.Builder.Kaniko.{BuilderOptions, Archiver, kaniko_job, prepare_job, wait_for_job_completion}
use knuu.Builder.Kaniko.Jobs.{IsPrepared, prepare_job-IsPrepared}
use knuu.Builder.Kaniko.Watching.{by_failure, wait_for_job_completion-Decides}
use knuu.Traefik.{Traefik, is_traefik_api_available}
use knuu.Traefik.Available.{is_traefik_api_available-among}
use knuu.Sidecars.Otel.{ObsyConfig, otel_config}
use knuu.Sidecars.Resolved.{is_resolved, otel_config-resolved}
use knuu.Examples.Server.{
  Contents, held, machine, service_api, services_server, services_kept, server, client, nothing,
  refusing,
}

abbrev has_bucket : List Text → Text → Bool
has_bucket [] n = false
has_bucket (b ∷ bs) n = if text_eq b n then true else has_bucket bs n

abbrev file_of : List ((Text × Text) × Text) → Text × Text → Option Text
file_of [] k = none
file_of ((j, content) ∷ files) k = if is_same j k then some content else file_of files k

abbrev without : Text × Text → List ((Text × Text) × Text) → List ((Text × Text) × Text)
without k [] = []
without k ((j, content) ∷ files) =
    let rest = without k files in if is_same j k then rest else (j, content) ∷ rest

file_of-without :
    (i : Text × Text) (files : List ((Text × Text) × Text)) (k : Text × Text)
    → file_of (without i files) k ≡ (if is_same i k then none else file_of files k)
file_of-without i [] k = ground arith
file_of-without (a, b) (((c, d), content) ∷ files) (e, g) = ground (
  arith,
  file_of-without (a, b) files (e, g),
  text_eq_iff c a,
  text_eq_iff d b,
  text_eq_iff c e,
  text_eq_iff d g,
  text_eq_iff a e,
  text_eq_iff b g,
)

instance abbrev store : ObjectStore
store = record {
  Handle = Unit {0};
  connect = λ endpoint key secret x. (x, ok tt);
  bucket_exists = λ h b x. (x, ok (has_bucket x.buckets b));
  make_bucket = λ h b x. (record x { buckets = b ∷ x.buckets }, ok tt);
  put_object = λ h b p content x. (record x { files = ((b, p), content) ∷ x.files }, ok tt);
  stat_object = λ h b p x. found x (other (codes "NoSuchKey")) (file_of x.files (b, p));
  remove_object = λ h b p x. (record x { files = without (b, p) x.files }, ok tt);
  presigned_get_object = λ h b p duration x. (x, ok p);
}

abbrev store-IsAnswering : IsAnswering tt
store-IsAnswering = record {
  buckets = λ x b. has_bucket x.buckets b;
  objects = λ x k. file_of x.files k;
  make = λ b x. record x { buckets = b ∷ x.buckets };
  put = λ k content x. record x { files = (k, content) ∷ x.files };
  drop = λ k x. record x { files = without k x.files };
  missing = other (codes "NoSuchKey");
  buckets_make = λ b x n. refl;
  objects_make = λ b x k. refl;
  objects_put = λ j content x k. refl;
  objects_drop = λ j x k. file_of-without j x.files k;
  exists_lem = λ b x. refl;
  make_lem = λ b x e. refl;
  put_lem = λ b p content x e. refl;
  stat_lem = λ b p x. refl;
  remove_lem = λ b p x. refl;
}

abbrev here_now : Session
here_now = session tt store-IsAnswering client (codes "kaniko") none nothing

push-delete_example :
    (delete
      (codes "a")
      (codes "kaniko")
      (push (codes "data") (codes "a") (codes "kaniko") here_now).0).1
    ≡ ok tt
push-delete_example =
    (push-delete tt store-IsAnswering client (codes "kaniko") (codes "data") (codes "a") none
      nothing).0.1

updates_lem :
    (a old : ServiceObject) (x : Contents)
    → services_server.view x a.meta.name ≡ some old
    → a.resource_version ≡ old.resource_version
    → service_api.update a x ≡ (services_server.put a x, ok (services_server.admitted a x))
updates_lem a old x e h = ap (updated x (services_server.put a x) a) e

-- A service of Minio in another version.
abbrev serving : Contents
serving = record nothing {
  services = record (minio_service (codes "test")) { resource_version = codes "7" } ∷ [];
}

create_or_update_service-stores_example :
    ((create_or_update_service client serving).1 ≡ ok tt)
    × ((stored : ServiceObject) × (Keeps (minio_service (codes "test")) stored
          × ((n : Text)
              → services_server.view (create_or_update_service client serving).0 n ≡ (
                  if text_eq service_name n then some stored else services_server.view serving n))))
create_or_update_service-stores_example =
    create_or_update_service-stores client services_server services_kept updates_lem serving

-- A deployment that is ready when the waits are over.
abbrev status_at : ℕ → Option Deployment
status_at zero = some (record (minio_deployment (codes "test")) { ready_replicas = pos 1 })
status_at (suc n) = some (minio_deployment (codes "test"))

abbrev starting : Client
starting = record client {
  clientset = record server {
    deployments = λ namespace. record refusing { get = λ n x. got x (status_at x.waits) };
  };
}

got-same : (x : Contents) (o : Option Deployment) → (got x o).0 ≡ x
got-same x none = refl
got-same x (some d) = refl

ready_at_zero :
    (n : ℕ)
    → n ≡ 0
    → (d : Deployment) × ((status_at n ≡ some d) × (ltb_ℤ (pos 0) d.ready_replicas ≡ true))
ready_at_zero zero h =
    (record (minio_deployment (codes "test")) { ready_replicas = pos 1 }, (refl, refl))
ready_at_zero (suc n) h = absurd (omega (arith, h))

waits_on :
    (n : ℕ) (x : Contents)
    → x.waits ≡ n
    → 0 < n
    → (y : Contents) × ((machine.select_done x ≡ (y, ok false)) × (y.waits < x.waits))
waits_on zero x e h = absurd (omega (arith, h))
waits_on (suc n) x e h = (record x { waits = n }, (rw e refl, omega (arith, e)))

wait_for_minio-returns_example : (wait_for_minio 4 starting nothing).1 ≡ ok (some tt)
wait_for_minio-returns_example =
    wait_for_minio-returns (λ x. x.waits) starting (λ x. status_at x.waits) (λ x. refl)
      (λ x h. ready_at_zero x.waits h) (λ x h. waits_on x.waits x refl h) 4 nothing (omega arith)

-- Goroutine 4 makes the bucket while goroutine 7 has read the mutex.
abbrev both_looked : Shared
both_looked = moved 7 (looked (some 0)) (moved 4 (looked (some 0)) (beginning (some 0) 1 false))

abbrev four_locked : Shared
four_locked =
    moved 4 (locked 0) (record (moved 4 (wants 0) both_looked) { held = set 0 true (λ m. false) })

abbrev four_made : Shared
four_made =
    moved 4 (leaving 0) (record (moved 4 (seen 0 false) four_locked) { exists = true; made = 1 })

four_makes : Reach (beginning (some 0) 1 false) four_made
four_makes =
    after
      (after
        (after
          (after (after (after here (look 4 refl refl)) (look 7 refl refl)) (reuse 4 0 refl refl))
          (lock 4 0 refl refl refl))
        (ask 4 0 refl refl))
      (make 4 0 refl refl)

made_once_example : four_made.made + bit false ≤ 1
made_once_example = (made_once 0 1 false four_made four_makes).0

instance abbrev archiver : Archiver
archiver = record {
  begin = λ x. (x, ok tt);
  write_header = λ path name x. (x, ok tt);
  copy_in = λ path x. (x, ok tt);
  finish = λ x. (x, ok (codes "archive"));
}

instance abbrev parser : Parser
parser = record { parse_quantity = λ text x. (x, ok 10) }

abbrev app_build : BuilderOptions
app_build = record {
  image_name = codes "app";
  build_context = codes "dir:///tmp/app";
  args = [];
  destination = codes "app";
  cache = none;
}

prepare_job-IsPrepared_example :
    OfValue (IsPrepared app_build) (prepare_job app_build (some here_now.minio, nothing)).1
prepare_job-IsPrepared_example = prepare_job-IsPrepared app_build (some here_now.minio, nothing)

abbrev app_job : Job
app_job = kaniko_job (codes "job") 10 app_build

abbrev failed_job : Job
failed_job = record app_job { failed = pos 1 }

-- A watch with a job without ended pods, an object of another type, and a job with a failed pod.
abbrev watched : Client
watched = record client {
  clientset = record server {
    next_job_event = λ x. elim x.waits [
      | zero ↦ (x, ok (job_event failed_job))
      | suc zero ↦ (record x { waits = 0 }, ok other_object)
      | suc (suc n) ↦ (record x { waits = 1 }, ok (job_event app_job))
    ];
  };
}

wait_for_job_completion-Decides_example :
    wait_for_job_completion 3 watched app_job nothing
    ≡ (record nothing { waits = 0 }, ok (some failed_job))
wait_for_job_completion-Decides_example =
    wait_for_job_completion-Decides watched 3 app_job (job_event app_job ∷ other_object ∷ [])
      (job_event failed_job) (ok (some failed_job)) nothing nothing (record nothing { waits = 0 })
      (record nothing { waits = 0 }) (omega arith) refl ((refl, refl), (tt, tt))
      (by_failure failed_job refl)
      (record nothing { waits = 1 }, (refl, (record nothing { waits = 0 }, (refl, refl)))) refl

abbrev with_traefik : Client
with_traefik = record client {
  clientset = record server {
    server_resources = λ v x. (
      x,
      ok (
          record { name = codes "ingressroutes"; kind = codes "IngressRoute" }
          ∷ record { name = codes "tlsoptions"; kind = codes "TLSOption" }
          ∷ record { name = codes "middlewares"; kind = codes "Middleware" }
          ∷ []),
    );
  };
}

abbrev proxy : Traefik
proxy = record { k8s_client = some with_traefik; endpoint = [] }

is_traefik_api_available-among_example : (is_traefik_api_available proxy nothing).1 ≡ ok true
is_traefik_api_available-among_example =
    is_traefik_api_available-among proxy with_traefik nothing nothing _ refl refl

abbrev thrift_only : ObsyConfig
thrift_only = record {
  otel_collector_version = codes "0.83.0";
  prometheus_endpoint_port = pos 0;
  prometheus_endpoint_job_name = [];
  prometheus_endpoint_scrape_interval = [];
  jaeger_grpc_port = pos 0;
  jaeger_thrift_compact_port = pos 0;
  jaeger_thrift_http_port = pos 14268;
  jaeger_endpoint = codes "jaeger:14250";
  otlp_port = pos 0;
  otlp_endpoint = [];
  otlp_username = [];
  otlp_password = [];
  prometheus_exporter_endpoint = [];
  prometheus_remote_write_exporter_endpoint = [];
  logging_exporter_log_level = [];
}

otel_config-resolved_example : is_resolved (otel_config thrift_only (codes "test")) ≡ false
otel_config-resolved_example = otel_config-resolved thrift_only (codes "test")
