-- ===== src/Examples.antt =====
-- A small cluster, and the theorems at concrete inputs.
mod Server
mod Cluster
mod Leaving
mod Building
mod Storing
use knuu.Prelude.{
  Option, if◌then◌else◌, ◌==◌, List, ℕ, zero, suc, ◌+◌, ◌<◌, ◌≡◌, ◌≢◌, ◌↔◌, refl, Bool, true, false,
  none, some, [], ◌∷◌, All, arith,
}
use knuu.Prelude.Text.{Text, codes}
use knuu.Prelude.Int.{pos}
use knuu.Errors.{Code, Error, foreign, other, raised, wrapped, instance_code, ok, err}
use knuu.Errors.Codes.{forwarding_port, destroying_pod, failed_to_delete_pod}
use knuu.Action.{each, ◌>>=◌, modify}
use knuu.Action.Moves.{Moves}
use knuu.Host.{Foreign, Call, Os}
use knuu.Container
use knuu.K8s.Types.{ReplicaSetConfig, KubeManager}
use knuu.K8s.Validate.{Validation, validate_replica_set_config}
use knuu.K8s.Validate.Meaning.{IsValidReplicaSet, validate_replica_set_config-none_iff}
use knuu.K8s.Sanitize.{sanitize_name}
use knuu.K8s.Sanitize.Laws.{
  IsDnsLabel, sanitize_name-IsDnsLabel, sanitize_name_of_IsDnsLabel, sanitize_name_idem,
}
use knuu.K8s.Sanitize.Panic.{sanitize_name-none_iff, LeavesNothing}
use knuu.Instance.State.{State}
use knuu.Instance.World.{Ref, World, SidecarManager, call}
use knuu.Instance.Access.{deref, labels, self, require_state, set_state, edit}
use knuu.Instance.Access.Frame.{Each}
use knuu.Instance.Build
use knuu.Instance.Network.{forward_attempts}
use knuu.Instance.Network.Forwarding.{forward_attempts_failing}
use knuu.Instance.Resources
use knuu.Instance.Network
use knuu.Instance.Sidecars
use knuu.Instance.Sidecars.States.{SidecarsHave}
use knuu.Instance.Execution.Together.{start_async-SidecarsHave}
use knuu.Instance.Execution
use knuu.Instance.Execution.{wait_running}
use knuu.Instance.Execution.Waiting.{wait_running-ends}
use knuu.Instance.Naming.{blank, set_name, new}
use knuu.Instance.Naming.Distinct.{HasProperNames, set_name-HasProperNames}
use knuu.Instance.Naming.Creating.{IsNew, new-HasProperNames}
use knuu.Instance.Operation.{
  run, allowed, stop, start_async, destroy, set_image, add_port_tcp, commit,
}
use knuu.Instance.Execution.Batch.{destroy_each, batch_destroy}
use knuu.Instance.Operation.Batch.{AllDestroyed, batch_destroy-AllDestroyed}
use knuu.Instance.Operation.Refusal.{run_refused}
use knuu.Instance.Operation.Failing.{SameState}
use knuu.Instance.Operation.Lifecycle.{
  Edge, Reaches, run-Reaches, run-Edge, run_err-state, run_all, run_all-destroyed,
}
use knuu.Instance.Operation.Succeeding.{run_ok-state}
use knuu.Instance.Operation.WellFormed.{IsWellFormed, Keeps, run-IsWellFormed}

-- The outside is the number of waits that are left before the context is done.
instance abbrev outside : Foreign
outside = record {
  Outside = ℕ;
  Quantity = ℕ;
  zero_quantity = 0;
  add_quantity = λ a b. a + b;
  quantity_value = λ q. pos q;
  equal_quantity = λ a b. a == b;
  must_parse = λ text. 1024;
  Probe = ℕ;
  Service = ℕ;
  ReplicaSet = ℕ;
  Manager = ℕ;
}

abbrev succeed : {A : Type 0} → A → Call A
succeed a x = (x, ok a)

abbrev refuse : {A : Type 0} → Call A
refuse x = (x, err (foreign (other (codes "unreachable"))))

abbrev waits : Call Bool
waits zero = (zero, ok true)
waits (suc n) = (n, ok false)

-- No pod can be deleted or forwarded to, and no replica set runs.
instance abbrev cluster : KubeManager
cluster = record {
  namespace = codes "test";
  get_service = λ name. succeed none;
  create_service = λ name opts. succeed 1;
  patch_service = λ name opts. succeed 1;
  delete_service = λ name. succeed tt;
  create_network_policy = λ name ls. succeed tt;
  delete_network_policy = λ name. succeed tt;
  network_policy_exists = λ name. succeed false;
  get_first_pod = λ name. succeed none;
  run_command_in_pod = λ pod container command. succeed [];
  port_forward_pod = λ name local_port port. refuse;
  volume_claim_exists = λ name. succeed false;
  create_volume_claim = λ name ls size. succeed tt;
  delete_volume_claim = λ name. succeed tt;
  create_or_update_config_map = λ name ls contents. succeed tt;
  delete_config_map = λ name. succeed tt;
  create_service_account = λ name ls. succeed tt;
  delete_service_account = λ name. succeed tt;
  create_role = λ name ls rules. succeed tt;
  create_role_binding = λ name ls role account. succeed tt;
  delete_role = λ name. succeed tt;
  delete_role_binding = λ name. succeed tt;
  create_replica_set = λ config init. succeed 1;
  delete_replica_set = λ name. refuse;
  is_replica_set_running = λ name. succeed false;
}

instance abbrev host : Os
host = record {
  mkdir_temp = λ pattern. succeed (codes "/tmp");
  mkdir_all = λ path. succeed tt;
  stat = λ path. succeed (record { size = 10; perm = 420; is_dir = false });
  open_file = λ path. succeed tt;
  stat_open = λ path. succeed (record { size = 10; perm = 420; is_dir = false });
  create_file = λ path perm. succeed tt;
  copy_file = λ to from. succeed tt;
  chmod = λ path perm. succeed tt;
  read_all = λ path. succeed [];
  write_file = λ path content. succeed tt;
  walk_contents = λ dir. succeed [];
  path_join = λ dir name. dir;
  path_dir = λ path. path;
  walk = λ dir. succeed [];
  path_rel = λ base path. succeed path;
  create_temp = λ pattern. succeed (codes "/tmp/temp");
  write_temp = λ path content. succeed tt;
  chmod_temp = λ path perm. succeed tt;
  close_temp = λ path. succeed tt;
  remove = λ path. succeed tt;
  remove_all = λ path. succeed tt;
  sha256_hex = λ content. content;
  new_uuid = succeed (codes "u");
  select_done = waits;
  context_error = other (codes "context deadline exceeded");
  getenv = λ name. [];
  free_port = succeed (pos 40000);
  has_builder = true;
  build_image = λ name build_context args cache. succeed tt;
}

instance abbrev managers : SidecarManager
managers = record {
  initialize = λ sc prefix w. (w, ok tt);
  pre_start = λ sc w. (w, ok tt);
  clone = λ sc prefix w. (w, ok sc);
}

-- A memory whose instances are all as New makes them, in a given state.
abbrev world : State → World
world s = record {
  instances = λ i. record blank { state = s };
  next_instance = 1;
  factories = λ b. record {
    image_name_from = [];
    image_name_to = [];
    docker_file_instructions = [];
    build_context = [];
    args = [];
  };
  next_factory = 0;
  sidecar_instance = λ sc. none;
  scope = codes "scope";
  start_time = codes "now";
  instance_names = [];
  outside = 3;
}

SameState-pre_start : (sc : ℕ) → Moves (Each SameState) (managers.pre_start sc)
SameState-pre_start sc = record { at = λ w. record { at = λ j. refl } }

Keeps-pre_start : (sc : ℕ) → Moves (Each Keeps) (managers.pre_start sc)
Keeps-pre_start sc = record { at = λ w. record { at = λ j h. h } }

world-HasProperNames : (s : State) → HasProperNames (world s)
world-HasProperNames s = record {
  registered = λ i h. absurd (h refl);
  valid = λ i h. absurd (h refl);
  distinct = λ i j h. absurd (h refl);
}

blank-IsWellFormed : (s : State) → IsWellFormed (record blank { state = s })
blank-IsWellFormed s = record { tcp = (tt, tt); udp = (tt, tt); volumes = omega arith }

run_refused_example :
    (c : Code) × (run stop 0 (world State.preparing) ≡ (world State.preparing, err (raised c)))
unfolding allowed
run_refused_example = run_refused stop 0 (world State.preparing) refl

run-Edge_example :
    Edge State.none ((run (set_image (codes "alpine") []) 0 (world State.none)).0.instances 0).state
run-Edge_example = run-Edge SameState-pre_start (set_image (codes "alpine") []) 0 (world State.none)

run-Reaches_example :
    Reaches
      (some State.destroyed)
      (record blank { state = State.started })
      ((run destroy 0 (world State.started)).0.instances 1)
run-Reaches_example = run-Reaches SameState-pre_start destroy 0 1 (world State.started)

-- The pod cannot be deleted, so Stop fails after it has passed its check.
abbrev stopped_by : Error
stopped_by =
    wrapped (instance_code destroying_pod)
      (wrapped (instance_code failed_to_delete_pod) (foreign (other (codes "unreachable"))))

stop_fails : run stop 0 (world State.started) ≡ (world State.started, err stopped_by)
unfolding run Execution.stop Execution.destroy_pod require_state self call ◌>>=◌
stop_fails = refl

run_err-state_example :
    ((world State.started).instances 1).state ≡ ((world State.started).instances 1).state
run_err-state_example =
    run_err-state SameState-pre_start stop 0 1 (world State.started) (world State.started)
      stopped_by stop_fails

abbrev with_image : World
with_image = (run (set_image (codes "alpine") []) 0 (world State.none)).0

image_is_set : run (set_image (codes "alpine") []) 0 (world State.none) ≡ (with_image, ok tt)
unfolding run Build.set_image Build.get_build_dir Build.image_not_allowed
    Container.new_builder_factory set_state self edit modify call ◌>>=◌
image_is_set = refl

run_ok-state_example : (with_image.instances 0).state ≡ State.preparing
run_ok-state_example =
    run_ok-state (set_image (codes "alpine") []) 0 State.preparing (world State.none) with_image
      refl image_is_set

run-IsWellFormed_example :
    IsWellFormed ((run (add_port_tcp (pos 8080)) 0 (world State.preparing)).0.instances 0)
run-IsWellFormed_example =
    run-IsWellFormed Keeps-pre_start (add_port_tcp (pos 8080)) 0 0 (world State.preparing)
      (blank-IsWellFormed State.preparing)

set_name-HasProperNames_example : HasProperNames (set_name 0 (codes "My_App") (world State.none)).0
set_name-HasProperNames_example =
    set_name-HasProperNames 0 (codes "My_App") (world State.none) (world-HasProperNames State.none)

new-HasProperNames_example :
    HasProperNames (new (codes "My_App") (world State.none)).0
    × IsNew (codes "My_App") (world State.none) (new (codes "My_App") (world State.none))
new-HasProperNames_example =
    new-HasProperNames (codes "My_App") (world State.none) (world-HasProperNames State.none)

run_all-destroyed_example :
    ((run_all (start_async ∷ stop ∷ commit ∷ []) 0 (world State.destroyed)).instances 0).state
    ≡ State.destroyed
run_all-destroyed_example =
    run_all-destroyed SameState-pre_start (start_async ∷ stop ∷ commit ∷ []) 0
      (world State.destroyed) refl

waits_fall : (x : ℕ) → (waits x).1 ≡ ok false → (waits x).0 < x
waits_fall zero h = absurd (never h)
  where
    never : ok true ≡ ok false → ⊥
    never e = cc
waits_fall (suc n) h = omega arith

wait_running-ends_example : (wait_running 4 0 (world State.started)).1 ≢ ok none
wait_running-ends_example =
    wait_running-ends (λ x. x) 0 waits_fall (λ x name. omega arith) 4 (world State.started)
      (omega arith)

waits_return : (x : ℕ) → (b : Bool) × ((waits x).1 ≡ ok b)
waits_return zero = (true, refl)
waits_return (suc n) = (false, refl)

forward_attempts_failing_example :
    (forward_attempts 5
      (record { name = codes "pod"; pod_ip = [] })
      (pos 40000)
      (pos 80)
      (world State.started)).1
    ≡ err (raised (instance_code forwarding_port))
forward_attempts_failing_example =
    forward_attempts_failing (record { name = codes "pod"; pod_ip = [] }) (pos 40000) (pos 80) 4
      (world State.started) (λ x. (foreign (other (codes "unreachable")), refl)) waits_return

sanitize_name-IsDnsLabel_example : IsDnsLabel (codes "my-app")
unfolding sanitize_name
sanitize_name-IsDnsLabel_example = sanitize_name-IsDnsLabel (codes "-My__App") (codes "my-app") refl

my_app-IsDnsLabel : IsDnsLabel (codes "my-app")
unfolding sanitize_name
my_app-IsDnsLabel = sanitize_name-IsDnsLabel (codes "my_app") (codes "my-app") refl

sanitize_name_of_IsDnsLabel_example : sanitize_name (codes "my-app") ≡ some (codes "my-app")
sanitize_name_of_IsDnsLabel_example = sanitize_name_of_IsDnsLabel (codes "my-app") my_app-IsDnsLabel

sanitize_name_idem_example : sanitize_name (codes "my-app") ≡ some (codes "my-app")
unfolding sanitize_name
sanitize_name_idem_example = sanitize_name_idem (codes "-My__App") (codes "my-app") refl

sanitize_name-none_iff_example :
    (sanitize_name (codes "-_") ≡ none) ↔ All LeavesNothing (codes "-_")
sanitize_name-none_iff_example = sanitize_name-none_iff (codes "-_")

abbrev rejects_empty : Text → List Text
rejects_empty [] = codes "must not be empty" ∷ []
rejects_empty (c ∷ s) = []

instance abbrev validation : Validation
validation = record {
  is_dns1123_label = rejects_empty;
  is_dns1123_subdomain = rejects_empty;
  is_qualified_name = rejects_empty;
  is_valid_label_value = λ value. [];
  is_config_map_key = rejects_empty;
}

-- The configuration of an instance that has no image.
abbrev no_image : ReplicaSetConfig
no_image = record {
  name = codes "app";
  namespace = codes "test";
  labels = (codes "app", codes "app") ∷ [];
  replicas = pos 1;
  pod_config = record {
    namespace = codes "test";
    name = codes "app";
    labels = [];
    service_account_name = codes "app";
    fs_group = pos 0;
    container_config = Execution.container_config (codes "Always") blank;
    sidecar_configs = [];
    annotations = [];
    node_selector = [];
  };
}

validate_replica_set_config-none_iff_example :
    (validate_replica_set_config no_image ≡ none) ↔ IsValidReplicaSet no_image
validate_replica_set_config-none_iff_example = validate_replica_set_config-none_iff no_image

-- A stopped instance 0 with one sidecar, whose instance is 1.
abbrev with_sidecar : World
with_sidecar = record (world State.stopped) {
  instances = λ i. record blank {
    state = State.stopped;
    sidecars = record { is_sidecar = i == 1; sidecars = if i == 0 then 7 ∷ [] else [] };
  };
  sidecar_instance = λ sc. some 1;
}

abbrev with_sidecar_started : World
with_sidecar_started = (Execution.start_async 0 with_sidecar).0

sidecar_starts : Execution.start_async 0 with_sidecar ≡ (with_sidecar_started, ok tt)
unfolding Execution.start_async Execution.ready_to_start Execution.deploy_started
    Execution.deploy_pod Execution.prepare_replica_set_config Execution.sidecar_configs
    Execution.set_state_of_all Sidecars.verify_sidecars_states Sidecars.apply_function_to_sidecars
    Sidecars.set_state_for_sidecars Sidecars.sidecar Sidecars.apply_to each deref labels
    require_state set_state self edit modify call ◌>>=◌
sidecar_starts = refl

start_async-SidecarsHave_example : SidecarsHave State.started 0 with_sidecar_started
start_async-SidecarsHave_example =
    start_async-SidecarsHave 0 with_sidecar with_sidecar_started sidecar_starts

-- A nil pointer and an instance that runs.
abbrev batch : List (Option Ref)
batch = none ∷ some 0 ∷ []

-- A cluster that deletes what it is asked to.
abbrev obeying : KubeManager
obeying = record cluster { delete_replica_set = λ name. succeed tt }

abbrev after_batch : World
after_batch = (batch_destroy ⦃k = obeying⦄ batch (world State.started)).0

batch_succeeds : batch_destroy ⦃k = obeying⦄ batch (world State.started) ≡ (after_batch, ok tt)
unfolding batch_destroy destroy_each Execution.destroy Execution.destroy_all Execution.destroy_pod
    Execution.set_state_of_all Resources.destroy_resources Network.enable_if_disabled
    Network.is_disabled Sidecars.apply_function_to_sidecars Sidecars.set_state_for_sidecars
    Sidecars.apply_to each require_state set_state self edit modify call ◌>>=◌
batch_succeeds = refl

batch_destroy-AllDestroyed_example : AllDestroyed batch after_batch
batch_destroy-AllDestroyed_example =
    batch_destroy-AllDestroyed ⦃k = obeying⦄ batch (world State.started) after_batch refl
      batch_succeeds
