-- ===== src/K8s/Cluster/Outcomes.antt =====
-- What a check and an error make of the call that they stand in.
use knuu.Prelude.{Bool, true, false, if◌then◌else◌, ◌≡◌, ◌≢◌, refl, ap, Option, none, some}
use knuu.Errors.{Error, Result, raised, ok, err, panic, k8s_code}
use knuu.Errors.Codes.{K8sCode}
use knuu.Action.{Action, pure, raise, ◌>>=◌, ◌>>◌}
use knuu.Action.Moves.{IsPreorder, Moves}
use knuu.K8s.Validate.{Verdict, ◌⨾◌}
use knuu.K8s.Cluster.{settled, on_error, check}

module _ {S A B : Type 0} (m : Action S A) (h : Error → Action S B) (g : A → Action S B) where
  pub on_error_of_err : (s t : S) (e : Error) → m s ≡ (t, err e) → on_error m h g s ≡ h e t
  unfolding on_error
  on_error_of_err s t e eq = λ i. let (s', r) = eq i in settled r g h s'

  pub on_error_of_ok : (s t : S) (a : A) → m s ≡ (t, ok a) → on_error m h g s ≡ g a t
  unfolding on_error
  on_error_of_ok s t a eq = λ i. let (s', r) = eq i in settled r g h s'

module _ {S B : Type 0} (code : K8sCode) (m : Action S B) (s : S) where
  -- The last check, and one before others.
  pub last : (v : Verdict) → v ≡ some code → (check v >> m) s ≡ (s, err (raised (k8s_code code)))
  unfolding ◌>>=◌ raise pure
  last none h = cc
  last (some c) h =
      ap (λ o. (s, err (elim o [ none ↦ raised (k8s_code code) | some d ↦ raised (k8s_code d) ]))) h

  pub first :
      (v w : Verdict)
      → (v ⨾ w) ≡ some code
      → (w ≡ some code → m s ≡ (s, err (raised (k8s_code code))))
      → (check v >> m) s ≡ (s, err (raised (k8s_code code)))
  unfolding ◌>>=◌ raise pure
  first none w h rest = rest h
  first (some c) w h rest = last (some c) h

module _ {S B : Type 0} (m : Action S B) (s : S) where
  pub passed : (v : Verdict) → v ≡ none → (check v >> m) s ≡ m s
  unfolding ◌>>=◌ pure
  passed none h = refl
  passed (some c) h = absurd cc

module _ {S A B : Type 0} (h : Error → Action S (Option B)) (g : A → Action S (Option B)) where
  settled_not_none :
      (p : S × Result A)
      → ((e : Error) → p.1 ≡ err e → (h e p.0).1 ≢ ok none)
      → ((a : A) → p.1 ≡ ok a → (g a p.0).1 ≢ ok none)
      → (settled p.1 g h p.0).1 ≢ ok none
  settled_not_none (t, ok a) kh kg = kg a refl
  settled_not_none (t, err e) kh kg = kh e refl
  settled_not_none (t, panic) kh kg = λ e'. cc

  pub on_error_not_none :
      (m : Action S A) (s : S)
      → ((e : Error) → (m s).1 ≡ err e → (h e (m s).0).1 ≢ ok none)
      → ((a : A) → (m s).1 ≡ ok a → (g a (m s).0).1 ≢ ok none)
      → (on_error m h g s).1 ≢ ok none
  unfolding on_error
  on_error_not_none m s kh kg = settled_not_none (m s) kh kg

module _ {S : Type 0} {R : S → S → Type 0} (p : IsPreorder R) where
  pub Moves-on_error :
      {A B : Type 0} (m : Action S A) (h : Error → Action S B) (g : A → Action S B)
      → Moves R m
      → ((e : Error) → Moves R (h e))
      → ((a : A) → Moves R (g a))
      → Moves R (on_error m h g)
  unfolding on_error
  Moves-on_error {A = A} m h g k kh kg = record {
    at = λ s. let (s', r) = m s in p.chain (k.at s) ((settles r).at s');
  }
    where
      settles : (r : Result A) → Moves R (settled r g h)
      settles (ok a) = record { at = λ s. (kg a).at s }
      settles (err e) = record { at = λ s. (kh e).at s }
      settles panic = record { at = p.same }

  pub Moves-check : (v : Verdict) → Moves R (check v)
  unfolding pure raise
  Moves-check none = record { at = p.same }
  Moves-check (some c) = record { at = p.same }

pub Moves-if :
    {S A : Type 0} {R : S → S → Type 0} (b : Bool) (m n : Action S A)
    → Moves R m
    → Moves R n
    → Moves R (if b then m else n)
Moves-if true m n h k = h
Moves-if false m n h k = k
