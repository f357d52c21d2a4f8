-- ===== src/K8s/Pods.antt =====
-- pod.go of pkg/k8s: the specification of a pod, from its configuration. Go walks the set of
-- directories and the map of the environment in any order; here they keep the order of their list.
pub mod Mounts
pub mod InitCommand
use knuu.Prelude.{
  ℕ, zero, suc, ◌+◌, ◌-◌, ◌%◌, Bool, true, false, not, ◌||◌, ◌&&◌, Option, none, some, List, [],
  ◌∷◌, ◌++◌, map, length, any, if◌then◌else◌, ltb, ◌==◌,
}
use knuu.Prelude.Text.{Text, codes, is_empty, text_eq, decimal}
use knuu.Prelude.Int.{ℤ, pos, negsuc}
use knuu.Prelude.Strings.{trim_left, trim_prefix, trim_suffix, concat, show_int}
use knuu.Host.{Foreign, Os}
use knuu.K8s.Types.{Labels, File, Volume, ContainerConfig, PodConfig}
use knuu.K8s.Objects.{
  Meta, Mount, VolumeSource, claim, empty_dir, from_config_map, PodVolume, ContainerPort,
  ResourceRequirements, Container, PodSpec, PodObject,
}

abbrev pub knuu_path : Text
knuu_path = codes "/knuu"

abbrev pub config_suffix : Text
config_suffix = codes "-config"

abbrev pub and_then : Text
and_then = codes " && "

abbrev pub is_zero : ℕ → Bool
is_zero zero = true
is_zero (suc n) = false

-- int32(n) of a 64-bit int: the low 32 bits, with their sign.
abbrev pub signed32 : ℕ → ℤ
signed32 r = if ltb r 2147483648 then pos r else negsuc (4294967295 - r)

abbrev pub int32 : ℤ → ℤ
int32 (pos n) = signed32 (n % 4294967296)
int32 (negsuc n) = signed32 (4294967295 - n % 4294967296)

pub build_env : Labels → List (Text × Text)
build_env env = env

unfoldable pub build_pod_volumes : Text → ℕ → ℕ → List PodVolume
build_pod_volumes name volumes_amount files_amount =
    (if is_zero volumes_amount then [] else record { name = name; source = claim name } ∷ [])
    ++ ((if is_zero volumes_amount && not (is_zero files_amount)
          then record { name = name; source = empty_dir } ∷ []
          else [])
        ++ (if is_zero files_amount
            then []
            else record { name = name ++ config_suffix; source = from_config_map name 384 } ∷ []))

abbrev pub port_of : Text → Text → ℤ → ContainerPort
port_of prefix protocol port = record {
  name = prefix ++ show_int port;
  protocol = protocol;
  container_port = int32 port;
}

unfoldable pub build_pod_ports : List ℤ → List ℤ → List ContainerPort
build_pod_ports tcp_ports udp_ports =
    map (port_of (codes "tcp-") (codes "TCP")) tcp_ports
    ++ map (port_of (codes "udp-") (codes "UDP")) udp_ports

abbrev pub init_mount : Text → Text → Mount
init_mount name path = record {
  name = name;
  mount_path = knuu_path ++ path;
  sub_path = trim_prefix (codes "/") path;
}

module _ ⦃f : Foreign⦄ where
  pub build_resources : f.Quantity → f.Quantity → f.Quantity → ResourceRequirements
  build_resources memory_request memory_limit cpu_request = record {
    memory_request = memory_request;
    cpu_request = cpu_request;
    memory_limit = memory_limit;
  }

  module _ ⦃o : Os⦄ where
    -- The directories of the files, each once, but for those seen before.
    unfoldable pub directories : List Text → List File → List Text
    directories seen [] = []
    directories seen (file ∷ files) = elim (any (text_eq (o.path_dir file.dest)) seen) [
      | true ↦ directories seen files
      | false ↦ o.path_dir file.dest ∷ directories (o.path_dir file.dest ∷ seen) files
    ]

    unfoldable pub build_container_volumes : Text → List Volume → List File → List Mount
    unfolding directories
    build_container_volumes name volumes files =
        map
          (λ volume. record {
            name = name;
            mount_path = volume.path;
            sub_path = trim_left b'/' volume.path;
          })
          volumes
        ++ (if is_zero (length volumes)
            then map
                (λ path. record {
                  name = name;
                  mount_path = path;
                  sub_path = trim_prefix (codes "/") path;
                })
                (directories [] files)
            else [])

    -- The mounts of the files, numbered from `n`.
    unfoldable pub file_mounts : Text → ℕ → List File → List Mount
    file_mounts name n [] = []
    file_mounts name n (file ∷ files) =
        record { name = name ++ config_suffix; mount_path = file.dest; sub_path = decimal n }
        ∷ file_mounts name (n + 1) files

    unfoldable pub build_init_container_volumes : Text → List Volume → List File → List Mount
    unfolding directories file_mounts
    build_init_container_volumes name volumes files =
        (if is_zero (length volumes)
          then map (init_mount name) (directories [] files)
          else record { name = name; mount_path = knuu_path; sub_path = [] } ∷ [])
        ++ file_mounts name 0 files

    -- cp, chown and chmod of one file.
    abbrev pub add_file_to_knuu : File → Text
    add_file_to_knuu file =
        let target = o.path_join knuu_path file.dest in
        (codes "cp " ++ (file.dest ++ (codes " " ++ (target ++ and_then))))
        ++ ((if is_empty file.chown
              then []
              else codes "chown " ++ (file.chown ++ (codes " " ++ (target ++ and_then))))
            ++ (if is_empty file.permission
                then []
                else codes "chmod " ++ (file.permission ++ (codes " " ++ (target ++ and_then)))))

    abbrev pub make_parent : Text → Text
    make_parent folder = codes "mkdir -p " ++ ((knuu_path ++ folder) ++ and_then)

    unfoldable pub file_commands : List Text → List File → List Text
    file_commands seen [] = []
    file_commands seen (file ∷ files) = elim (any (text_eq (o.path_dir file.dest)) seen) [
      | true ↦ add_file_to_knuu file ∷ file_commands seen files
      | false ↦
          make_parent (o.path_dir file.dest)
          ∷ add_file_to_knuu file
          ∷ file_commands (o.path_dir file.dest ∷ seen) files
    ]

    -- The test on a volume's directory, and the copy of what stands in it.
    abbrev pub copy_volume : Volume → Text
    copy_volume volume =
        let target = knuu_path ++ volume.path in
        let owner = show_int volume.owner in
        (codes "if [ -d "
          ++ (volume.path
              ++ (codes " ] && [ \"$(ls -A "
                  ++ (volume.path
                      ++ (codes ")\" ]; then mkdir -p "
                          ++ (target
                              ++ (codes " && cp -r "
                                  ++ (volume.path
                                      ++ (codes "/* "
                                          ++ (target
                                              ++ (codes " && chown -R "
                                                  ++ (owner
                                                      ++ (codes ":"
                                                          ++ (owner
                                                            ++ (codes " " ++ target)))))))))))))))
        ++ codes " ;fi && "

    unfoldable pub build_init_container_command : List Volume → List File → List Text
    unfolding file_commands
    build_init_container_command volumes files =
        codes "sh"
        ∷ codes "-c"
        ∷ trim_suffix and_then (
            concat (
              codes "set -xe && "
              ∷ (codes "mkdir -p " ++ (knuu_path ++ and_then))
              ∷ (file_commands [] files ++ map copy_volume volumes)))
        ∷ []

    unfoldable pub prepare_container : ContainerConfig → Container
    unfolding build_env build_container_volumes build_resources build_pod_ports
    prepare_container config = record {
      name = config.name;
      image = config.image;
      image_pull_policy = config.image_pull_policy;
      command = config.command;
      args = config.args;
      env = build_env config.env;
      mounts = build_container_volumes config.name config.volumes config.files;
      resources =
          some (build_resources config.memory_request config.memory_limit config.cpu_request);
      ports = build_pod_ports config.tcp_ports config.udp_ports;
      liveness_probe = config.liveness_probe;
      readiness_probe = config.readiness_probe;
      startup_probe = config.startup_probe;
      security_context = config.security_context;
      run_as_user = none;
    }

    abbrev pub init_container : ContainerConfig → Container
    init_container config = record {
      name = config.name ++ codes "-init";
      image = codes "nicolaka/netshoot";
      image_pull_policy = [];
      command = build_init_container_command config.volumes config.files;
      args = [];
      env = [];
      mounts = build_init_container_volumes config.name config.volumes config.files;
      resources = none;
      ports = [];
      liveness_probe = none;
      readiness_probe = none;
      startup_probe = none;
      security_context = none;
      run_as_user = some 0;
    }

    unfoldable pub prepare_init_containers : ContainerConfig → Bool → List Container
    unfolding build_init_container_command build_init_container_volumes
    prepare_init_containers config init =
        if not init || (is_zero (length config.volumes) && is_zero (length config.files))
        then []
        else init_container config ∷ []

    unfoldable pub prepare_pod_volumes : ContainerConfig → List PodVolume
    unfolding build_pod_volumes
    prepare_pod_volumes config =
        build_pod_volumes config.name (length config.volumes) (length config.files)

    -- The loop over the sidecars.
    unfoldable pub add_sidecars : PodSpec → List ContainerConfig → PodSpec
    add_sidecars spec [] = spec
    add_sidecars spec (config ∷ configs) =
        add_sidecars
          (record spec {
            init_containers = spec.init_containers ++ prepare_init_containers config true;
            containers = spec.containers ++ prepare_container config ∷ [];
            volumes = spec.volumes ++ prepare_pod_volumes config;
          })
          configs

    unfoldable pub prepare_pod_spec : PodConfig → Bool → PodSpec
    unfolding add_sidecars prepare_init_containers prepare_container prepare_pod_volumes
    prepare_pod_spec spec init =
        add_sidecars
          (record {
            service_account_name = spec.service_account_name;
            init_containers = prepare_init_containers spec.container_config init;
            containers = prepare_container spec.container_config ∷ [];
            volumes = prepare_pod_volumes spec.container_config;
            node_selector = spec.node_selector;
          })
          spec.sidecar_configs

    unfoldable pub prepare_pod : PodConfig → Bool → PodObject
    unfolding prepare_pod_spec
    prepare_pod spec init = record {
      meta = record {
        namespace = spec.namespace;
        name = spec.name;
        labels = spec.labels;
        annotations = spec.annotations;
      };
      created = none;
      spec = prepare_pod_spec spec init;
      phase = [];
      ready = [];
    }
