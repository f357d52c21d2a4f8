-- ===== src/Instance/World.antt =====
-- The records of pkg/instance (instance.go and the structs of its parts), the BuilderFactory of
-- pkg/container/docker.go, the SystemDependencies of pkg/system, and the memory that holds them.
-- A pointer is a number; `instances` and `factories` say what stands there.
use knuu.Prelude.{ℕ, ◌==◌, Bool, List, Option, if◌then◌else◌}
use knuu.Prelude.Text.{Text}
use knuu.Prelude.Int.{ℤ}
use knuu.Action.{Action}
use knuu.Host.{Foreign, PolicyRule, Call}
use knuu.K8s.Types.{File, Volume, Labels}
use knuu.Instance.State.{State, InstanceType}

abbrev pub Ref : Type 0
Ref = ℕ

pub record Build : Type 0 where
  pub image_name : Text
  pub image_pull_policy : Text
  pub builder_factory : Option Ref
  pub command : List Text
  pub args : List Text
  pub env : Labels
  pub image_cache : Labels
  pub build_dir : Text
  pub node_selector : Labels

pub record Security : Type 0 where
  pub privileged : Bool
  pub capabilities_add : List Text
  pub policy_rules : List PolicyRule

-- container.BuilderFactory. The image builder is the one of the system.
pub record BuilderFactory : Type 0 where
  pub image_name_from : Text
  pub image_name_to : Text
  pub docker_file_instructions : List Text
  pub build_context : Text
  pub args : Labels

module _ ⦃f : Foreign⦄ where
  pub record Resources : Type 0 where
    pub memory_request : f.Quantity
    pub memory_limit : f.Quantity
    pub cpu_request : f.Quantity

  pub record Network : Type 0 where
    pub ports_tcp : List ℤ
    pub ports_udp : List ℤ
    pub kubernetes_service : Option f.Service

  pub record Storage : Type 0 where
    pub volumes : List Volume
    pub files : List File

  pub record Monitoring : Type 0 where
    pub liveness_probe : Option f.Probe
    pub readiness_probe : Option f.Probe
    pub startup_probe : Option f.Probe

  pub record Sidecars : Type 0 where
    pub is_sidecar : Bool
    pub sidecars : List f.Manager

  -- The part `execution` has no field but the instance that it belongs to.
  pub record Instance : Type 0 where
    pub build : Build
    pub resources : Resources
    pub network : Network
    pub storage : Storage
    pub monitoring : Monitoring
    pub security : Security
    pub sidecars : Sidecars
    pub name : Text
    pub state : State
    pub instance_type : InstanceType
    pub kubernetes_replica_set : Option f.ReplicaSet
    pub parent_instance : Option Ref

  -- `sidecar_instance` is what Instance() of each SidecarManager returns, nil being none.
  -- `scope`, `start_time` and `instance_names` are fields of SystemDependencies.
  pub record World : Type 0 where
    pub instances : Ref → Instance
    pub next_instance : Ref
    pub factories : Ref → BuilderFactory
    pub next_factory : Ref
    pub sidecar_instance : f.Manager → Option Ref
    pub scope : Text
    pub start_time : Text
    pub instance_names : List Text
    pub outside : f.Outside

  -- What a SidecarManager does to the program's memory and to the outside.
  pub record SidecarManager : Type 0 where
    pub initialize : f.Manager → Text → Action World (Unit {0})
    pub pre_start : f.Manager → Action World (Unit {0})
    pub clone : f.Manager → Text → Action World f.Manager

abbrev pub update {ℓ} : {A : Type ℓ} → (Ref → A) → Ref → A → Ref → A
update h p v q = if p == q then v else h q

module _ ⦃f : Foreign⦄ where
  abbrev pub edit_instance : Ref → (Instance → Instance) → World → World
  edit_instance i g w = record w { instances = update w.instances i (g (w.instances i)) }

  -- A call of the outside, from the program.
  unfoldable pub call : {A : Type 0} → Call A → Action World A
  call c w = let (o, r) = c w.outside in (record w { outside = o }, r)
