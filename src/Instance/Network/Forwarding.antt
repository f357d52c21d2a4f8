-- ===== src/Instance/Network/Forwarding.antt =====
-- The attempts of PortForwardTCP, which follow each other until one succeeds.
use knuu.Prelude.{ℕ, zero, suc, arith, ◌≡◌, refl, Bool, false, ◌==◌, Bool-cases, inl, inr}
use knuu.Prelude.Int.{ℤ}
use knuu.Errors.{Error, ok, err, raised, instance_code}
use knuu.Errors.Codes.{forwarding_port}
use knuu.Action.{when, attempt, ◌>>=◌}
use knuu.Host.{Foreign, Os, Pod}
use knuu.K8s.Types.{KubeManager}
use knuu.Instance.World.{World, call}
use knuu.Instance.Network.{forward_attempts, after_attempt}

module _ ⦃f : Foreign⦄ ⦃k : KubeManager⦄ ⦃o : Os⦄ (pod : Pod) (local_port port : ℤ) where
  -- If every call of PortForwardPod fails and the wait for the context returns, the attempts return
  -- ErrForwardingPort, however many are left and wherever the context is done.
  pub forward_attempts_failing :
      (left : ℕ) (w : World)
      → ((x : f.Outside)
          → (e : Error) × ((k.port_forward_pod pod.name local_port port x).1 ≡ err e))
      → ((x : f.Outside) → (b : Bool) × ((o.select_done x).1 ≡ ok b))
      → (forward_attempts (suc left) pod local_port port w).1
        ≡ err (raised (instance_code forwarding_port))
  unfolding forward_attempts after_attempt ◌>>=◌ call attempt when
  forward_attempts_failing zero w fails waits =
      let x = (k.port_forward_pod pod.name local_port port w.outside).0 in
      let (e, h) = fails w.outside in
      let (b, h') = waits x in
      rw (h, h') (elim (Bool-cases b) [ inl c ↦ rw c refl | inr c ↦ rw c refl ])
  forward_attempts_failing (suc left) w fails waits =
      let x = (k.port_forward_pod pod.name local_port port w.outside).0 in
      let (e, h) = fails w.outside in
      let (b, h') = waits x in
      let y = (o.select_done x).0 in
      let z : (suc left == 0) ≡ false = ground arith in
      rw (h, h')
        (elim (Bool-cases b) [
          | inl c ↦ rw c refl
          | inr c ↦ rw (c, z) (forward_attempts_failing left (record w { outside = y }) fails waits)
        ])
