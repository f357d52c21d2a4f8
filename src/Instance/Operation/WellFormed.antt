-- ===== src/Instance/Operation/WellFormed.antt =====
-- What every operation keeps of the ports and volumes of all instances.
use knuu.Prelude.{
  ◌≤◌, ◌≡◌, refl, Bool, true, false, not, inl, inr, List, [], ◌∷◌, ◌++◌, length, Bool-cases, arith,
  ◌==◌, ==_iff,
}
use knuu.Prelude.Int.{ℤ, pos}
use knuu.Prelude.Text.{Text}
use knuu.Errors.{Code, instance_code}
use knuu.Errors.Codes.{InstanceCode}
use knuu.Action.{Action, require, modify, ◌>>=◌}
use knuu.Action.Moves.{Moves}
use knuu.Host.{Foreign, Os}
use knuu.K8s.Types.{KubeManager}
use knuu.Instance.State.{State, is_in_state}
use knuu.Instance.World.{Ref, World, Instance, SidecarManager}
use knuu.Instance.Access.{self, edit, require_state}
use knuu.Instance.Access.Frame.{Frame, Each}
use knuu.Instance.Network.{add_port_tcp, add_port_udp, validate_port}
use knuu.Instance.Network.Ports.{IsPortList, IsPortList-append}
use knuu.Instance.Storage.{no_volumes, add_volume, add_volume_with_owner}
use knuu.Instance.Operation.{Operation, run}
use knuu.Instance.Operation.Steps.{Rest, run-Each}

not-true : (b : Bool) → not b ≡ true → b ≡ false
not-true true h = cc
not-true false h = refl

no_false : false ≡ true → ⊥
no_false h = cc

one_volume {ℓ} :
    {A : Type ℓ} (vs : List A) (v : A) → no_volumes vs ≡ true → length (vs ++ v ∷ []) ≤ 1
one_volume [] v h = omega arith
one_volume (u ∷ vs) v h = absurd (no_false h)

module _ ⦃f : Foreign⦄ where
  -- The ports are port numbers, each registered once, and there is at most one volume.
  pub record IsWellFormed (a : Instance) : Type 0 where
    pub tcp : IsPortList a.network.ports_tcp
    pub udp : IsPortList a.network.ports_udp
    pub volumes : length a.storage.volumes ≤ 1

  abbrev pub Keeps : Instance → Instance → Type 0
  Keeps a b = IsWellFormed a → IsWellFormed b

  Keeps-Frame : Frame Keeps
  Keeps-Frame = record {
    same = λ a h. h;
    chain = λ {a} {b} {c} r s h. s (r h);
    build = λ a x h. record { tcp = h.tcp; udp = h.udp; volumes = h.volumes };
    resources = λ a x h. record { tcp = h.tcp; udp = h.udp; volumes = h.volumes };
    monitoring = λ a x h. record { tcp = h.tcp; udp = h.udp; volumes = h.volumes };
    security = λ a x h. record { tcp = h.tcp; udp = h.udp; volumes = h.volumes };
    service = λ a x h. record { tcp = h.tcp; udp = h.udp; volumes = h.volumes };
    files = λ a x h. record { tcp = h.tcp; udp = h.udp; volumes = h.volumes };
    replica_set = λ a x h. record { tcp = h.tcp; udp = h.udp; volumes = h.volumes };
    parent = λ a x h. record { tcp = h.tcp; udp = h.udp; volumes = h.volumes };
  }

  -- From the world `w`, the action keeps the instances well formed.
  record KeepsFrom {A : Type 0} (w : World) (m : Action World A) : Type 0 where
    at : Each Keeps w (m w).0

  edit-Keeps :
      (i : Ref) (g : Instance → Instance) (w : World)
      → Keeps (w.instances i) (g (w.instances i))
      → KeepsFrom w (edit i g)
  unfolding edit modify
  edit-Keeps i g w h = record {
    at = record {
      at = λ j. elim (Bool-cases (i == j)) [
        | inl e ↦ rw e (rw (← (==_iff i j).0 e) h)
        | inr e ↦ rw e (λ k. k)
      ];
    };
  }

  require-Keeps :
      (b : Bool) (c : Code) (rest : Unit {0} → Action World (Unit {0})) (w : World)
      → (b ≡ true → KeepsFrom w (rest tt))
      → KeepsFrom w (require b c >>= rest)
  unfolding ◌>>=◌
  require-Keeps true c rest w h = record { at = (h refl).at }
  require-Keeps false c rest w h = record { at = record { at = λ j k. k } }

  self-Keeps :
      (i : Ref) (rest : Instance → Action World (Unit {0})) (w : World)
      → KeepsFrom w (rest (w.instances i))
      → KeepsFrom w (self i >>= rest)
  unfolding self ◌>>=◌
  self-Keeps i rest w h = record { at = h.at }

  state-Keeps :
      (i : Ref) (states : List State) (c : InstanceCode) (rest : Unit {0} → Action World (Unit {0}))
      (w : World)
      → KeepsFrom w (rest tt)
      → KeepsFrom w (require_state i states c >>= rest)
  unfolding require_state self ◌>>=◌
  state-Keeps i states c rest w h =
      let k : KeepsFrom w
          (require (is_in_state (w.instances i).state states) (instance_code c) >>= rest) =
        require-Keeps _ _ rest w (λ e. h) in
      record { at = k.at }

  tcp_kept : (i : Ref) (port : ℤ) (w : World) → KeepsFrom w (add_port_tcp i port)
  unfolding add_port_tcp validate_port
  tcp_kept i port w = state-Keeps i _ _ _ w (
      require-Keeps _ _ _ w λ e. self-Keeps i _ w (
        require-Keeps _ _ _ w λ e'. edit-Keeps i _ w λ h. record {
          tcp = IsPortList-append port _ h.tcp e (not-true _ e');
          udp = h.udp;
          volumes = h.volumes;
        }))

  udp_kept : (i : Ref) (port : ℤ) (w : World) → KeepsFrom w (add_port_udp i port)
  unfolding add_port_udp validate_port
  udp_kept i port w = state-Keeps i _ _ _ w (
      require-Keeps _ _ _ w λ e. self-Keeps i _ w (
        require-Keeps _ _ _ w λ e'. edit-Keeps i _ w λ h. record {
          tcp = h.tcp;
          udp = IsPortList-append port _ h.udp e (not-true _ e');
          volumes = h.volumes;
        }))

  owned_volume_kept :
      (i : Ref) (path : Text) (size : f.Quantity) (owner : ℤ) (w : World)
      → KeepsFrom w (add_volume_with_owner i path size owner)
  unfolding add_volume_with_owner
  owned_volume_kept i path size owner w = state-Keeps i _ _ _ w (
      self-Keeps i _ w (
        require-Keeps _ _ _ w λ e. edit-Keeps i _ w λ h. record {
          tcp = h.tcp;
          udp = h.udp;
          volumes = one_volume (w.instances i).storage.volumes _ e;
        }))

  volume_kept :
      (i : Ref) (path : Text) (size : f.Quantity) (w : World) → KeepsFrom w (add_volume i path size)
  unfolding add_volume
  volume_kept i path size w =
      self-Keeps i _ w (require-Keeps _ _ _ w λ e. owned_volume_kept i path size (pos 0) w)

  module _ ⦃k : KubeManager⦄ ⦃o : Os⦄ ⦃m : SidecarManager⦄
      (safe : (sc : f.Manager) → Moves (Each Keeps) (m.pre_start sc)) where
    -- Every operation, whether it succeeds or fails, keeps every instance well formed: its port
    -- numbers are between 1 and 65535 and registered once, and it has at most one volume. PreStart of the
    -- sidecars is assumed to do so.
    pub run-IsWellFormed :
        (op : Operation) (i j : Ref) (w : World)
        → IsWellFormed (w.instances j)
        → IsWellFormed ((run op i w).0.instances j)
    run-IsWellFormed op i j w =
        let r : Rest Keeps = record {
          tcp = λ i port. record { at = λ w. (tcp_kept i port w).at };
          udp = λ i port. record { at = λ w. (udp_kept i port w).at };
          volume = λ i path size. record { at = λ w. (volume_kept i path size w).at };
          owned_volume =
              λ i path size owner. record { at = λ w. (owned_volume_kept i path size owner w).at };
          pre_start = safe;
        } in
        ((run-Each Keeps-Frame r op i
              (λ s e a h. record { tcp = h.tcp; udp = h.udp; volumes = h.volumes })).at
            w).at
          j
