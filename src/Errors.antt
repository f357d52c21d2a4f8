-- ===== src/Errors.antt =====
-- The errors that an operation returns: the code of the package's error variable (the errors.go
-- files), wrapped round the error that caused it, and the faults of what lies outside the program.
pub mod Codes
pub mod Knuu
pub mod Minio
pub mod Kaniko
pub mod Docker
pub mod Traefik
pub mod Netshaper
pub mod Tshark
pub mod Observability
use knuu.Prelude.{Bool, true, false}
use knuu.Prelude.Text.{Text}
use knuu.Errors.Knuu.{KnuuCode}
use knuu.Errors.Minio.{MinioCode}
use knuu.Errors.Kaniko.{KanikoCode}
use knuu.Errors.Docker.{DockerCode}
use knuu.Errors.Traefik.{TraefikCode}
use knuu.Errors.Netshaper.{NetshaperCode}
use knuu.Errors.Tshark.{TsharkCode}
use knuu.Errors.Observability.{ObservabilityCode}
use knuu.Errors.Codes.{InstanceCode, K8sCode, ContainerCode, BuilderCode, PreloaderCode}

pub data Code : Type 0 where
  instance_code : InstanceCode → Code
  k8s_code : K8sCode → Code
  container_code : ContainerCode → Code
  builder_code : BuilderCode → Code
  preloader_code : PreloaderCode → Code
  knuu_code : KnuuCode → Code
  minio_code : MinioCode → Code
  kaniko_code : KanikoCode → Code
  docker_code : DockerCode → Code
  traefik_code : TraefikCode → Code
  netshaper_code : NetshaperCode → Code
  tshark_code : TsharkCode → Code
  observability_code : ObservabilityCode → Code

-- What the program asks of an error of the API: IsNotFound and IsAlreadyExists.
pub data Fault : Type 0 where
  not_found already_exists : Fault
  other : Text → Fault

pub data Error : Type 0 where
  raised : Code → Error
  wrapped : Code → Error → Error
  foreign : Fault → Error

pub data Result {ℓ} (A : Type ℓ) : Type ℓ where
  ok : A → Result A
  err : Error → Result A
  panic : Result A

-- os.IsNotExist and apierrs.IsNotFound, of an error and of the result of a call.
abbrev pub is_missing : Error → Bool
is_missing (foreign not_found) = true
is_missing _ = false

abbrev pub is_not_found {ℓ} : {A : Type ℓ} → Result A → Bool
is_not_found (err e) = is_missing e
is_not_found (ok a) = false
is_not_found panic = false
