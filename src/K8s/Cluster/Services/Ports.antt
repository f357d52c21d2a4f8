-- ===== src/K8s/Cluster/Services/Ports.antt =====
-- The ports of a service: 32-bit numbers, of the ports that the checks accept.
use knuu.Prelude.{
  ◌%◌, ◌≤◌, ◌≡◌, refl, ap, ◌∙◌, true, none, some, List, [], ◌∷◌, ◌++◌, map, ltb, arith,
}
use knuu.Prelude.Text.{Text, codes}
use knuu.Prelude.Int.{ℤ, pos, negsuc}
use knuu.K8s.Objects.{ServicePort}
use knuu.K8s.Pods.{int32}
use knuu.K8s.Validate.{Verdict, ◌⨾◌, validate_port, validate_ports}
use knuu.K8s.Cluster.Services.{service_port_of, build_ports}

abbrev pub numbers : List ServicePort → List ℤ
numbers ports = map (λ p. p.port) ports

pub seq_none : (v w : Verdict) → (v ⨾ w) ≡ none → (v ≡ none) × (w ≡ none)
seq_none none w h = (refl, h)
seq_none (some c) w h = absurd cc

pub int32_lem : (port : ℤ) → validate_port port ≡ none → int32 port ≡ port
int32_lem (pos n) h =
    let small : n ≤ 65535 = ground (arith, h) in
    let whole : n % 4294967296 ≡ n = omega (arith, small) in
    let positive : ltb n 2147483648 ≡ true = ground (arith, small) in rw (whole, positive) refl
int32_lem (negsuc n) h = ground (arith, h)

numbers_lem :
    (prefix protocol : Text) (ports : List ℤ)
    → validate_ports ports ≡ none
    → numbers (map (service_port_of prefix protocol) ports) ≡ ports
numbers_lem prefix protocol [] h = refl
numbers_lem prefix protocol (port ∷ ports) h =
    let (here, there) = seq_none (validate_port port) (validate_ports ports) h in
    rw (int32_lem port here, numbers_lem prefix protocol ports there) refl

map-append : {A B : Type 0} (g : A → B) (xs ys : List A) → map g (xs ++ ys) ≡ map g xs ++ map g ys
map-append g [] ys = refl
map-append g (x ∷ xs) ys = ap (λ t. g x ∷ t) (map-append g xs ys)

-- The ports of a service have the numbers that were asked for, in their order, where the checks accept
-- these: the conversion to 32 bits loses nothing.
pub build_ports-exact :
    (tcp_ports udp_ports : List ℤ)
    → validate_ports tcp_ports ≡ none
    → validate_ports udp_ports ≡ none
    → numbers (build_ports tcp_ports udp_ports) ≡ tcp_ports ++ udp_ports
unfolding build_ports
build_ports-exact tcp_ports udp_ports h h' =
    let tcp = map (service_port_of (codes "tcp-") (codes "TCP")) tcp_ports in
    let udp = map (service_port_of (codes "udp-") (codes "UDP")) udp_ports in
    map-append (λ p. p.port) tcp udp
    ∙ rw
        (
          numbers_lem (codes "tcp-") (codes "TCP") tcp_ports h,
          numbers_lem (codes "udp-") (codes "UDP") udp_ports h',
        )
        refl
