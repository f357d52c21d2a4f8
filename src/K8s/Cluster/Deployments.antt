-- ===== src/K8s/Cluster/Deployments.antt =====
-- deployment.go and logs.go of pkg/k8s. A stream of logs is its text.
use knuu.Prelude.{ℕ, zero, suc, if◌then◌else◌, Option, none, some}
use knuu.Prelude.Text.{Text, is_empty}
use knuu.Prelude.Int.{pos, ltb_ℤ}
use knuu.Errors.{Error, raised, wrapped, is_missing, k8s_code}
use knuu.Errors.Codes.{waiting_for_deployment}
use knuu.Action.{pure, throw, crash, when, ◌>>=◌, ◌>>◌}
use knuu.Host.{Foreign, Os, Call}
use knuu.K8s.Objects.{PodObject}
use knuu.K8s.Cluster.{on_error, Client, alive}
use knuu.K8s.Cluster.Services.Waiting.{Dialer}
use knuu.K8s.Cluster.Workloads.{get_first_pod_from_replica_set}

-- ErrWaitingForDeployment.Wrap(err), where err is that of the last query, or nil.
abbrev pub not_waited : Option Error → Error
not_waited none = raised (k8s_code waiting_for_deployment)
not_waited (some e) = wrapped (k8s_code waiting_for_deployment) e

module _ ⦃f : Foreign⦄ where
  module _ ⦃o : Os⦄ where
    abbrev pub pause_for : Option Error → Call (Option (Unit {0})) → Call (Option (Unit {0}))
    pause_for error rest = do done ← o.select_done; when done (throw (not_waited error)) rest

    -- A deployment that is missing comes as one without ready replicas. none means that the rounds
    -- ran out.
    unfoldable pub wait_for_deployment : ℕ → Client → Text → Call (Option (Unit {0}))
    wait_for_deployment zero c name = pure none
    wait_for_deployment (suc rounds) c name = do
      let rest = wait_for_deployment rounds c name
      alive c
      on_error ((c.clientset.deployments c.namespace).get name)
          (λ e. if is_missing e then pause_for (some e) rest else throw (not_waited (some e)))
          (λ d. when (ltb_ℤ (pos 0) d.ready_replicas) (pure (some tt)) (pause_for none rest))

  -- The pod is read without a nil check.
  abbrev pub stream_of : Client → Text → Option PodObject → Call Text
  stream_of c container none = crash
  stream_of c container (some pod) =
      c.clientset.log_stream c.namespace pod.meta.name
        (if is_empty container then none else some container)

  unfoldable pub get_log_stream : ⦃n : Dialer⦄ → Client → Text → Text → Call Text
  unfolding get_first_pod_from_replica_set
  get_log_stream c replica_set_name container = do
    pod ← get_first_pod_from_replica_set c replica_set_name
    stream_of c container pod
