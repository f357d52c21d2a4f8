-- ===== src/Examples/Server.antt =====
-- A server that keeps its objects in lists, and its client.
use knuu.Prelude.{
  ◌==◌, map, ℕ, zero, suc, ◌+◌, ◌<◌, ◌≡◌, refl, ap, ◌∙◌, Bool, true, false, if◌then◌else◌, Option,
  none, some, List, [], ◌∷◌, ◌++◌, arith,
}
use knuu.Prelude.Text.{Text, codes, text_eq, text_eq_iff}
use knuu.Prelude.Int.{pos}
use knuu.Errors.{ok, err, foreign, other}
use knuu.Host.{Foreign, Os, Call}
use knuu.K8s.Objects.{
  channel_closed, ConfigMap, Namespace, ServiceObject, ResourceRequirements, Container, PodObject,
}
use knuu.K8s.Validate.{Validation}
use knuu.K8s.Cluster.{Api, Clientset, Client}
use knuu.K8s.Cluster.Services.Waiting.{Dialer}
use knuu.K8s.Cluster.Services.Kept.{Keeps}
use knuu.K8s.Cluster.Store.{got, created, updated, deleted, IsStore, IsServer}

module _ {A : Type 0} (key : A → Text) where
  abbrev pub find : List A → Text → Option A
  find [] n = none
  find (a ∷ more) n = if text_eq (key a) n then some a else find more n

  abbrev pub except : Text → List A → List A
  except m [] = []
  except m (a ∷ more) = let rest = except m more in if text_eq (key a) m then rest else a ∷ rest

  pub find-except :
      (m : Text) (xs : List A) (n : Text)
      → find (except m xs) n ≡ (if text_eq m n then none else find xs n)
  find-except m [] n = ground arith
  find-except m (a ∷ more) n =
      ground
        (arith, find-except m more n, text_eq_iff (key a) m, text_eq_iff (key a) n, text_eq_iff m n)

-- The types of the pods that are kept: the outside cannot hold pods of its own types.
abbrev pub plain : Foreign
plain = record {
  Outside = Unit;
  Quantity = ℕ;
  zero_quantity = 0;
  add_quantity = λ a b. a + b;
  quantity_value = λ q. pos q;
  equal_quantity = λ a b. a == b;
  must_parse = λ text. 1024;
  Probe = ℕ;
  Service = ℕ;
  ReplicaSet = ℕ;
  Manager = ℕ;
}

-- The objects, and the waits that are left before the context is done.
pub record Contents : Type 0 where
  pub config_maps : List ConfigMap
  pub namespaces : List Namespace
  pub services : List ServiceObject
  pub pods : List (PodObject ⦃f = plain⦄)
  pub buckets : List Text
  pub files : List ((Text × Text) × Text)
  pub waits : ℕ
  -- the pod that is being deleted, and the waits until it is gone
  pub leaving : Option Text
  pub grace : ℕ

instance abbrev pub held : Foreign
held = record {
  Outside = Contents;
  Quantity = ℕ;
  zero_quantity = 0;
  add_quantity = λ a b. a + b;
  quantity_value = λ q. pos q;
  equal_quantity = λ a b. a == b;
  must_parse = λ text. 1024;
  Probe = ℕ;
  Service = ℕ;
  ReplicaSet = ℕ;
  Manager = ℕ;
}

abbrev resources_kept : ResourceRequirements ⦃f = held⦄ → ResourceRequirements ⦃f = plain⦄
resources_kept r = record {
  memory_request = r.memory_request;
  cpu_request = r.cpu_request;
  memory_limit = r.memory_limit;
}

abbrev option_kept :
    Option (ResourceRequirements ⦃f = held⦄) → Option (ResourceRequirements ⦃f = plain⦄)
option_kept none = none
option_kept (some r) = some (resources_kept r)

abbrev container_kept : Container ⦃f = held⦄ → Container ⦃f = plain⦄
container_kept c = record {
  name = c.name;
  image = c.image;
  image_pull_policy = c.image_pull_policy;
  command = c.command;
  args = c.args;
  env = c.env;
  mounts = c.mounts;
  resources = option_kept c.resources;
  ports = c.ports;
  liveness_probe = c.liveness_probe;
  readiness_probe = c.readiness_probe;
  startup_probe = c.startup_probe;
  security_context = c.security_context;
  run_as_user = c.run_as_user;
}

abbrev pub pod_kept : PodObject ⦃f = held⦄ → PodObject ⦃f = plain⦄
pod_kept p = record {
  meta = p.meta;
  created = p.created;
  spec = record {
    service_account_name = p.spec.service_account_name;
    init_containers = map container_kept p.spec.init_containers;
    containers = map container_kept p.spec.containers;
    volumes = p.spec.volumes;
    node_selector = p.spec.node_selector;
  };
  phase = p.phase;
  ready = p.ready;
}

abbrev resources_shown : ResourceRequirements ⦃f = plain⦄ → ResourceRequirements ⦃f = held⦄
resources_shown r = record {
  memory_request = r.memory_request;
  cpu_request = r.cpu_request;
  memory_limit = r.memory_limit;
}

abbrev option_shown :
    Option (ResourceRequirements ⦃f = plain⦄) → Option (ResourceRequirements ⦃f = held⦄)
option_shown none = none
option_shown (some r) = some (resources_shown r)

abbrev container_shown : Container ⦃f = plain⦄ → Container ⦃f = held⦄
container_shown c = record {
  name = c.name;
  image = c.image;
  image_pull_policy = c.image_pull_policy;
  command = c.command;
  args = c.args;
  env = c.env;
  mounts = c.mounts;
  resources = option_shown c.resources;
  ports = c.ports;
  liveness_probe = c.liveness_probe;
  readiness_probe = c.readiness_probe;
  startup_probe = c.startup_probe;
  security_context = c.security_context;
  run_as_user = c.run_as_user;
}

abbrev pub pod_shown : PodObject ⦃f = plain⦄ → PodObject ⦃f = held⦄
pod_shown p = record {
  meta = p.meta;
  created = p.created;
  spec = record {
    service_account_name = p.spec.service_account_name;
    init_containers = map container_shown p.spec.init_containers;
    containers = map container_shown p.spec.containers;
    volumes = p.spec.volumes;
    node_selector = p.spec.node_selector;
  };
  phase = p.phase;
  ready = p.ready;
}

option_shown_kept :
    (o : Option (ResourceRequirements ⦃f = held⦄)) → option_shown (option_kept o) ≡ o
option_shown_kept none = refl
option_shown_kept (some r) = refl

shown_kept : (c : Container ⦃f = held⦄) → container_shown (container_kept c) ≡ c
shown_kept c = ap (λ r. record c { resources = r }) (option_shown_kept c.resources)

all_shown_kept :
    (cs : List (Container ⦃f = held⦄)) → map container_shown (map container_kept cs) ≡ cs
all_shown_kept [] = refl
all_shown_kept (c ∷ cs) = λ i. shown_kept c i ∷ all_shown_kept cs i

pod_shown_kept : (p : PodObject ⦃f = held⦄) → pod_shown (pod_kept p) ≡ p
pod_shown_kept p = λ i. record p {
  spec = record p.spec {
    init_containers = all_shown_kept p.spec.init_containers i;
    containers = all_shown_kept p.spec.containers i;
  };
}

module _ {A : Type 0} (key : A → Text) (get : Contents → List A)
    (set : List A → Contents → Contents) where
  abbrev pub listed : Api A
  listed = record {
    get = λ n x. got x (find key (get x) n);
    create = λ a x. created x (set (a ∷ get x) x) a (find key (get x) (key a));
    update = λ a x. updated x (set (a ∷ get x) x) a (find key (get x) (key a));
    delete = λ n seconds x. deleted x (set (except key n (get x)) x) (find key (get x) n);
  }

  abbrev pub list_store : ((xs : List A) (x : Contents) → get (set xs x) ≡ xs) → IsStore listed key
  list_store law = record {
    view = λ x n. find key (get x) n;
    put = λ a x. set (a ∷ get x) x;
    drop = λ n x. set (except key n (get x)) x;
    view_put = λ a x n. ap (λ xs. find key xs n) (law (a ∷ get x) x);
    view_drop = λ m x n.
        ap (λ xs. find key xs n) (law (except key m (get x)) x) ∙ find-except key m (get x) n;
    get_lem = λ n x. refl;
    create_lem = λ a x. refl;
    update_lem = λ a x. refl;
    delete_lem = λ n seconds x. refl;
  }

module _ {A : Type 0} (key : A → Text) (get : Contents → List A)
    (set : List A → Contents → Contents) where
  abbrev pub list_server :
      ((xs : List A) (x : Contents) → get (set xs x) ≡ xs) → IsServer (listed key get set) key
  list_server law = record {
    view = λ x n. find key (get x) n;
    put = λ a x. set (a ∷ get x) x;
    admitted = λ a x. a;
    view_put = λ a x n. ap (λ xs. find key xs n) (law (a ∷ get x) x);
    get_lem = λ n x. refl;
    create_lem = λ a x. refl;
  }

abbrev pub map_api : Api ConfigMap
map_api = listed (λ cm. cm.meta.name) (λ x. x.config_maps) (λ xs x. record x { config_maps = xs })

abbrev pub namespace_api : Api Namespace
namespace_api = listed (λ ns. ns.name) (λ x. x.namespaces) (λ xs x. record x { namespaces = xs })

abbrev pub service_api : Api ServiceObject
service_api = listed (λ srv. srv.meta.name) (λ x. x.services) (λ xs x. record x { services = xs })

abbrev pub pod_api : Api PodObject
pod_api =
    listed (λ pod. pod.meta.name) (λ x. map pod_shown x.pods)
      (λ xs x. record x { pods = map pod_kept xs })

pub pods_shown_kept : (ps : List PodObject) → map pod_shown (map pod_kept ps) ≡ ps
pods_shown_kept [] = refl
pods_shown_kept (p ∷ ps) = λ i. pod_shown_kept p i ∷ pods_shown_kept ps i

abbrev pub services_server : IsServer service_api (λ srv. srv.meta.name)
services_server =
    list_server _ (λ x. x.services) (λ xs x. record x { services = xs }) (λ xs x. refl)

pub services_kept : (a : ServiceObject) (x : Contents) → Keeps a (services_server.admitted a x)
services_kept a x = record {
  meta_lem = refl;
  ports_lem = refl;
  selector_lem = refl;
  type_lem = refl;
  ip_lem = λ h. refl;
}

-- An API that refuses everything.
abbrev pub refusing : {A : Type 0} → Api A
refusing = record {
  get = λ n x. (x, err (foreign (other (codes "unreachable"))));
  create = λ a x. (x, err (foreign (other (codes "unreachable"))));
  update = λ a x. (x, err (foreign (other (codes "unreachable"))));
  delete = λ n seconds x. (x, err (foreign (other (codes "unreachable"))));
}

abbrev pub server : Clientset
server = record {
  config_maps = λ namespace. map_api;
  services = λ namespace. service_api;
  network_policies = λ namespace. refusing;
  roles = λ namespace. refusing;
  cluster_roles = refusing;
  role_bindings = λ namespace. refusing;
  cluster_role_bindings = refusing;
  service_accounts = λ namespace. refusing;
  namespaces = namespace_api;
  volume_claims = λ namespace. refusing;
  pods = λ namespace. pod_api;
  replica_sets = λ namespace. refusing;
  daemon_sets = λ namespace. refusing;
  list_nodes = λ x. (x, ok []);
  list_pods = λ namespace selector x. (x, ok []);
  deployments = λ namespace. refusing;
  list_volumes = λ x. (x, ok []);
  create_volume = λ volume x. (x, ok volume);
  create_job = λ namespace job x. (x, ok job);
  watch_jobs = λ namespace selector x. (x, ok tt);
  next_job_event = λ x. (x, ok channel_closed);
  create_object = λ resource namespace value x. (x, ok tt);
  server_resources = λ version x. (x, ok []);
  log_stream = λ namespace pod container x. (x, ok []);
  pod_logs = λ namespace pod container x. (x, ok []);
}

abbrev pub client : Client
client = record {
  clientset = server;
  namespace = codes "test";
  cluster_domain = codes "cluster.local";
  terminated = false;
  max_pending_duration = pos 60;
}

abbrev pub nothing : Contents
nothing = record {
  config_maps = [];
  namespaces = [];
  services = [];
  pods = [];
  buckets = [];
  files = [];
  waits = 3;
  leaving = none;
  grace = 0;
}

abbrev done_at : ℕ → Call Bool
done_at zero x = (x, ok true)
done_at (suc n) x = (record x { waits = n }, ok false)

abbrev done_after : Call Bool
done_after x = done_at x.waits x

done_at_falls : (n : ℕ) (x : Contents) → (done_at n x).1 ≡ ok false → (done_at n x).0.waits < n
done_at_falls zero x h = cc
done_at_falls (suc n) x h = omega arith

abbrev answer : {A : Type 0} → A → Call A
answer a x = (x, ok a)

instance abbrev pub machine : Os
machine = record {
  mkdir_temp = λ pattern. answer (codes "/tmp");
  mkdir_all = λ path. answer tt;
  stat = λ path. answer (record { size = 10; perm = 420; is_dir = false });
  open_file = λ path. answer tt;
  stat_open = λ path. answer (record { size = 10; perm = 420; is_dir = false });
  create_file = λ path perm. answer tt;
  copy_file = λ to from. answer tt;
  chmod = λ path perm. answer tt;
  read_all = λ path. answer [];
  write_file = λ path content. answer tt;
  walk_contents = λ dir. answer [];
  path_join = λ dir name. dir ++ name;
  path_dir = λ path. codes "/etc";
  walk = λ dir. answer [];
  path_rel = λ base path. answer path;
  create_temp = λ pattern. answer (codes "/tmp/temp");
  write_temp = λ path content. answer tt;
  chmod_temp = λ path perm. answer tt;
  close_temp = λ path. answer tt;
  remove = λ path. answer tt;
  remove_all = λ path. answer tt;
  sha256_hex = λ content. content;
  new_uuid = answer (codes "u");
  select_done = done_after;
  context_error = other (codes "deadline");
  getenv = λ name. [];
  free_port = answer (pos 5000);
  has_builder = true;
  build_image = λ name build_context args cache. answer tt;
}

abbrev rejects_empty : Text → List Text
rejects_empty [] = codes "must not be empty" ∷ []
rejects_empty (c ∷ s) = []

instance abbrev pub validation : Validation
validation = record {
  is_dns1123_label = rejects_empty;
  is_dns1123_subdomain = rejects_empty;
  is_qualified_name = rejects_empty;
  is_valid_label_value = λ value. [];
  is_config_map_key = rejects_empty;
}

pub select_done-falls :
    (x : Contents)
    → (machine.select_done x).1 ≡ ok false
    → (machine.select_done x).0.waits < x.waits
select_done-falls x h = done_at_falls x.waits x h

instance abbrev pub network : Dialer
network = record { dial = λ endpoint. answer tt; format_selector = λ labels. [] }
