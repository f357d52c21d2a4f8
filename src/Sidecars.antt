-- ===== src/Sidecars.antt =====
-- pkg/sidecars: the sidecars of the repository. Each is a struct that is changed beside the World, and
-- implements SidecarManager.
pub mod Schema
pub mod Otel
pub mod Resolved
pub mod Observability
pub mod Tshark
pub mod Netshaper
use knuu.Prelude.{Bool, true, Option, none, some}
use knuu.Prelude.Text.{Text}
use knuu.Errors.{Code, Result, ok, err, panic, wrapped}
use knuu.Action.{Action, pure, throw, crash, attempt, modify, ◌>>=◌, ◌>>◌}
use knuu.Host.{Foreign}
use knuu.Instance.World.{Ref, World}
use knuu.Instance.Naming
use knuu.Instance.Sidecars.{set_is_sidecar}

module _ ⦃f : Foreign⦄ {S : Type 0} where
  -- What the struct's code does to the rest of the program.
  abbrev pub on_world : {A : Type 0} → Action World A → Action (S × World) A
  on_world m (s, w) = let (w', r) = m w in ((s, w'), r)

  abbrev pub edit_struct : (S → S) → Action (S × World) (Unit {0})
  edit_struct g = modify (λ p. (g p.0, p.1))

  -- s.instance, err = instance.New(...): a failure leaves nil in the struct.
  abbrev pub keep_instance : (Option Ref → S → S) → Code → Result Ref → Action (S × World) Ref
  keep_instance set c (ok i) = do edit_struct (set (some i)); pure i
  keep_instance set c (err e) = do edit_struct (set none); throw (wrapped c e)
  keep_instance set c panic = crash

  -- The first lines of the three Initialize: the instance of the sidecar.
  unfoldable pub new_sidecar : (Option Ref → S → S) → Code → Text → Action (S × World) Ref
  new_sidecar set c name = do
    made ← attempt (on_world (Naming.new name))
    i ← keep_instance set c made
    on_world (set_is_sidecar i true)
    pure i
