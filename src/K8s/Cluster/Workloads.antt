-- ===== src/K8s/Cluster/Workloads.antt =====
-- pod.go and replicaset.go of pkg/k8s: the pods and replica sets of the cluster. The loops that wait for
-- a deletion take the number of their rounds; `none` means that the rounds ran out.
pub mod Waiting
pub mod Replacing
use knuu.Prelude.{
  ℕ, zero, suc, Bool, true, false, ◌&&◌, if◌then◌else◌, Option, none, some, List, [], ◌∷◌, ◌==◌,
}
use knuu.Prelude.Text.{Text, codes}
use knuu.Prelude.Int.{ℤ, pos, negsuc}
use knuu.Errors.{Error, raised, wrapped, foreign, is_missing, k8s_code}
use knuu.Errors.Codes.{
  K8sCode, creating_pod, deleting_pod, waiting_for_pod_deletion, deploying_pod, getting_pod,
  deleting_pod_failed, creating_replica_set, deleting_replica_set, waiting_for_replica_set_deletion,
  deploying_replica_set, checking_replica_set_exists, listing_pods_for_replica_set,
  no_pods_for_replica_set, getting_replica_set,
}
use knuu.Action.{pure, raise, throw, wrapping, when, ◌>>=◌, ◌>>◌}
use knuu.Host.{Foreign, Os, Call}
use knuu.K8s.Types.{Labels, PodConfig, ReplicaSetConfig}
use knuu.K8s.Objects.{Meta, PodObject, ReplicaSetObject}
use knuu.K8s.Pods.{prepare_pod, prepare_pod_spec}
use knuu.K8s.Validate.{Validation, validate_pod_config, validate_replica_set_config}
use knuu.K8s.Cluster.{on_error, check, Api, Client, alive}
use knuu.K8s.Cluster.Services.Waiting.{Dialer}

abbrev pub all_true : List Bool → Bool
all_true [] = true
all_true (b ∷ bs) = if b then all_true bs else false

abbrev pub beq_ℤ : ℤ → ℤ → Bool
beq_ℤ (pos n) (pos m) = n == m
beq_ℤ (negsuc n) (negsuc m) = n == m
beq_ℤ (pos n) (negsuc m) = false
beq_ℤ (negsuc n) (pos m) = false

-- ptr.To[int64](0) where the caller gives no period.
abbrev pub grace_period : Option ℤ → Option ℤ
grace_period none = some (pos 0)
grace_period (some seconds) = some seconds

module _ ⦃f : Foreign⦄ where
  abbrev pub pods : Client → Api PodObject
  pods c = c.clientset.pods c.namespace

  abbrev pub replica_sets : Client → Api ReplicaSetObject
  replica_sets c = c.clientset.replica_sets c.namespace

  unfoldable pub get_pod : Client → Text → Call PodObject
  get_pod c name = do alive c; (pods c).get name

  abbrev pub is_pod_running : Client → Text → Call Bool
  unfolding get_pod
  is_pod_running c name = do
    pod ← wrapping (k8s_code getting_pod) (get_pod c name)
    pure (all_true pod.ready)

  unfoldable pub delete_pod_with_grace_period : Client → Text → Option ℤ → Call (Unit {0})
  unfolding get_pod
  delete_pod_with_grace_period c name seconds =
      on_error (get_pod c name) (λ e. if is_missing e then pure tt else throw e)
        (λ pod. wrapping (k8s_code deleting_pod_failed) ((pods c).delete name seconds))

  abbrev pub delete_pod : Client → Text → Call (Unit {0})
  unfolding delete_pod_with_grace_period
  delete_pod c name = delete_pod_with_grace_period c name none

  unfoldable pub get_replica_set : Client → Text → Call ReplicaSetObject
  get_replica_set c name = do alive c; (replica_sets c).get name

  unfoldable pub replica_set_exists : Client → Text → Call Bool
  unfolding get_replica_set
  replica_set_exists c name =
      on_error (get_replica_set c name)
        (λ e. if is_missing e then pure false else throw (wrapped (k8s_code getting_replica_set) e))
        (λ rs. pure true)

  abbrev pub is_replica_set_running : Client → Text → Call Bool
  unfolding get_replica_set
  is_replica_set_running c name = do
    rs ← wrapping (k8s_code getting_pod) (get_replica_set c name)
    pure (beq_ℤ rs.ready_replicas rs.replicas)

  unfoldable pub delete_replica_set_with_grace_period : Client → Text → Option ℤ → Call (Unit {0})
  unfolding replica_set_exists
  delete_replica_set_with_grace_period c name seconds = do
    exists ← wrapping (k8s_code checking_replica_set_exists) (replica_set_exists c name)
    if exists
        then wrapping (k8s_code deleting_replica_set)
            ((replica_sets c).delete name (grace_period seconds))
        else pure tt

  abbrev pub delete_replica_set : Client → Text → Call (Unit {0})
  unfolding delete_replica_set_with_grace_period
  delete_replica_set c name = delete_replica_set_with_grace_period c name none

  abbrev pub first_pod : Client → List PodObject → Call (Option PodObject)
  unfolding get_pod
  first_pod c [] = raise (k8s_code no_pods_for_replica_set)
  first_pod c (pod ∷ more) = do found ← get_pod c pod.meta.name; pure (some found)

  module _ ⦃n : Dialer⦄ where
    unfoldable pub get_first_pod_from_replica_set : Client → Text → Call (Option PodObject)
    unfolding get_replica_set
    get_first_pod_from_replica_set c name =
        on_error (get_replica_set c name) (λ e. if is_missing e then pure none else throw e)
          λ rs. do
            found ←
                wrapping (k8s_code listing_pods_for_replica_set)
                  (c.clientset.list_pods c.namespace (n.format_selector rs.selector))
            first_pod c found

  module _ ⦃o : Os⦄ where
    unfoldable pub prepare_replica_set : ReplicaSetConfig → Bool → ReplicaSetObject
    unfolding prepare_pod_spec
    prepare_replica_set rs_conf init = record {
      meta = record {
        namespace = rs_conf.namespace;
        name = rs_conf.name;
        labels = rs_conf.labels;
        annotations = [];
      };
      replicas = rs_conf.replicas;
      selector = rs_conf.labels;
      template_meta = record {
        namespace = rs_conf.namespace;
        name = rs_conf.name;
        labels = rs_conf.labels;
        annotations = rs_conf.pod_config.annotations;
      };
      template = prepare_pod_spec rs_conf.pod_config init;
      ready_replicas = pos 0;
    }

    -- A select between the end of the context and the tick of the next retry, then one round.
    abbrev pub pod_is_gone : Client → Text → Call Bool
    unfolding get_pod
    pod_is_gone c name =
        on_error (get_pod c name)
          (λ e.
            if is_missing e
            then pure true
            else throw (wrapped (k8s_code waiting_for_pod_deletion) e))
          (λ pod. pure false)

    unfoldable pub wait_for_pod_deletion : ℕ → Client → Text → Call (Option (Unit {0}))
    wait_for_pod_deletion zero c name = pure none
    wait_for_pod_deletion (suc rounds) c name = do
      let rest = wait_for_pod_deletion rounds c name
      done ← o.select_done
      when done (throw (foreign o.context_error))
          do gone ← pod_is_gone c name; when gone (pure (some tt)) rest

    unfoldable pub wait_for_replica_set_deletion : ℕ → Client → Text → Call (Option (Unit {0}))
    unfolding replica_set_exists
    wait_for_replica_set_deletion zero c name = pure none
    wait_for_replica_set_deletion (suc rounds) c name = do
      let rest = wait_for_replica_set_deletion rounds c name
      done ← o.select_done
      when done (throw (foreign o.context_error)) do
        exists ← wrapping (k8s_code checking_replica_set_exists) (replica_set_exists c name)
        when exists rest (pure (some tt))

    module _ ⦃v : Validation⦄ where
      unfoldable pub deploy_pod : Client → PodConfig → Bool → Call PodObject
      unfolding prepare_pod
      deploy_pod c pod_config init = do
        alive c
        check (validate_pod_config pod_config)
        wrapping (k8s_code creating_pod) ((pods c).create (prepare_pod pod_config init))

      unfoldable pub create_replica_set : Client → ReplicaSetConfig → Bool → Call ReplicaSetObject
      unfolding prepare_replica_set
      create_replica_set c rs_config init = do
        alive c
        check (validate_replica_set_config rs_config)
        wrapping (k8s_code creating_replica_set) (
            (replica_sets c).create
              (prepare_replica_set (record rs_config { namespace = c.namespace }) init))

      abbrev pub deploy_after : Client → PodConfig → Option (Unit {0}) → Call (Option PodObject)
      unfolding deploy_pod
      deploy_after c pod_config none = pure none
      deploy_after c pod_config (some u) = do
        pod ← wrapping (k8s_code deploying_pod) (deploy_pod c pod_config false)
        pure (some pod)

      unfoldable pub replace_pod_with_grace_period :
          ℕ → Client → PodConfig → Option ℤ → Call (Option PodObject)
      unfolding wait_for_pod_deletion delete_pod_with_grace_period
      replace_pod_with_grace_period rounds c pod_config seconds = do
        wrapping (k8s_code deleting_pod) (delete_pod_with_grace_period c pod_config.name seconds)
        gone ←
            wrapping (k8s_code waiting_for_pod_deletion)
              (wait_for_pod_deletion rounds c pod_config.name)
        deploy_after c pod_config gone

      abbrev pub replace_pod : ℕ → Client → PodConfig → Call (Option PodObject)
      unfolding replace_pod_with_grace_period
      replace_pod rounds c pod_config = replace_pod_with_grace_period rounds c pod_config none

      abbrev pub create_after :
          Client → ReplicaSetConfig → Option (Unit {0}) → Call (Option ReplicaSetObject)
      unfolding create_replica_set
      create_after c rs_config none = pure none
      create_after c rs_config (some u) = do
        rs ← wrapping (k8s_code deploying_replica_set) (create_replica_set c rs_config false)
        pure (some rs)

      unfoldable pub replace_replica_set_with_grace_period :
          ℕ → Client → ReplicaSetConfig → Option ℤ → Call (Option ReplicaSetObject)
      unfolding wait_for_replica_set_deletion delete_replica_set_with_grace_period
      replace_replica_set_with_grace_period rounds c rs_config seconds = do
        wrapping (k8s_code deleting_replica_set)
            (delete_replica_set_with_grace_period c rs_config.name seconds)
        gone ←
            wrapping (k8s_code waiting_for_replica_set_deletion)
              (wait_for_replica_set_deletion rounds c rs_config.name)
        create_after c rs_config gone

      abbrev pub replace_replica_set :
          ℕ → Client → ReplicaSetConfig → Call (Option ReplicaSetObject)
      unfolding replace_replica_set_with_grace_period
      replace_replica_set rounds c rs_config =
          replace_replica_set_with_grace_period rounds c rs_config none
