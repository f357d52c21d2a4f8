-- ===== src/K8s/Cluster/Services/Kept.antt =====
-- What the API server leaves as it is of a service that it is sent: it assigns the version, node ports
-- and addresses, and fills in what is left out of a port.
use knuu.Prelude.{◌≡◌, ap, false, List, [], ◌∷◌, map}
use knuu.Prelude.Text.{Text, is_empty}
use knuu.Prelude.Int.{ℤ}
use knuu.Errors.{Code}
use knuu.Action.{pure}
use knuu.Host.{Foreign}
use knuu.K8s.Objects.{ServicePort, ServiceObject}
use knuu.K8s.Cluster.Services.{first_port}

abbrev pub port_numbers : List ServicePort → List ℤ
port_numbers ps = map (λ p. p.port) ps

pub record Keeps (sent stored : ServiceObject) : Type 0 where
  pub meta_lem : stored.meta ≡ sent.meta
  pub ports_lem : port_numbers stored.ports ≡ port_numbers sent.ports
  pub selector_lem : stored.selector ≡ sent.selector
  pub type_lem : stored.service_type ≡ sent.service_type
  -- An address that is asked for, or "None", is kept.
  pub ip_lem : is_empty sent.cluster_ip ≡ false → stored.cluster_ip ≡ sent.cluster_ip

-- A version that is sent makes no difference to this.
pub Keeps-version :
    (sent stored : ServiceObject) (version : Text)
    → Keeps (record sent { resource_version = version }) stored
    → Keeps sent stored
Keeps-version sent stored version k = record {
  meta_lem = k.meta_lem;
  ports_lem = k.ports_lem;
  selector_lem = k.selector_lem;
  type_lem = k.type_lem;
  ip_lem = k.ip_lem;
}

module _ ⦃f : Foreign⦄ where
  pub first_port_lem :
      (code : Code) (ps : List ServicePort) (port : ℤ) (ports : List ℤ)
      → port_numbers ps ≡ port ∷ ports
      → first_port code ps ≡ pure port
  first_port_lem code [] port ports h = cc
  first_port_lem code (p ∷ ps) port ports h = let e : p.port ≡ port = cc in ap (λ n. pure n) e
