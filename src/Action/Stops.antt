-- ===== src/Action/Stops.antt =====
-- What a failing step makes of the actions that it stands in.
use knuu.Prelude.{◌≡◌, refl, ap, Bool, true, false}
use knuu.Errors.{Code, Error, raised, wrapped, ok, err, panic}
use knuu.Action.{Action, require, wrapping, wrap_result, ◌>>=◌, continue}

module _ {ℓ} {S A B : Type ℓ} (m : Action S A) (f : A → Action S B) where
  pub bind_of_err : (s t : S) (e : Error) → m s ≡ (t, err e) → (m >>= f) s ≡ (t, err e)
  unfolding ◌>>=◌
  bind_of_err s t e h = λ i. let (s', r) = h i in continue r f s'

  pub bind_of_ok : (s t : S) (a : A) → m s ≡ (t, ok a) → (m >>= f) s ≡ f a t
  unfolding ◌>>=◌
  bind_of_ok s t a h = λ i. let (s', r) = h i in continue r f s'

  pub bind_of_panic : (s t : S) → m s ≡ (t, panic) → (m >>= f) s ≡ (t, panic)
  unfolding ◌>>=◌
  bind_of_panic s t h = λ i. let (s', r) = h i in continue r f s'

module _ {S A : Type 0} (c : Code) (m : Action S A) (s t : S) where
  pub wrapping_of_panic : m s ≡ (t, panic) → wrapping c m s ≡ (t, panic)
  unfolding wrapping
  wrapping_of_panic h = ap (λ (u, r). (u, wrap_result c r)) h

  pub wrapping_of_err : (e : Error) → m s ≡ (t, err e) → wrapping c m s ≡ (t, err (wrapped c e))
  unfolding wrapping
  wrapping_of_err e h = ap (λ (u, r). (u, wrap_result c r)) h

  pub wrapping_of_ok : (a : A) → m s ≡ (t, ok a) → wrapping c m s ≡ (t, ok a)
  unfolding wrapping
  wrapping_of_ok a h = ap (λ (u, r). (u, wrap_result c r)) h

pub require_of_false :
    {S : Type 0} (b : Bool) (c : Code) (s : S) → b ≡ false → require b c s ≡ (s, err (raised c))
unfolding require
require_of_false true c s h = cc
require_of_false false c s h = refl
