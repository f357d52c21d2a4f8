-- ===== src/Action.antt =====
-- Code that reads and writes shared state and may fail. What was written before a failure stays
-- written, so the state comes back beside every result.
pub mod Moves
pub mod Failures
pub mod Outcomes
pub mod Stops
pub mod Rounds
pub mod Values
use knuu.Prelude.{Bool, true, false, List, [], ◌∷◌}
use knuu.Errors.{Code, Error, raised, wrapped, Result, ok, err, panic}

abbrev pub Action {ℓ} : Type ℓ → Type ℓ → Type ℓ
Action S A = S → S × Result A

module _ {ℓ} {A : Type ℓ} where
  abbrev pub wrap_result : Code → Result A → Result A
  wrap_result c (ok a) = ok a
  wrap_result c (err e) = err (wrapped c e)
  wrap_result c panic = panic

  abbrev pub caught : Result A → Result (Result A)
  caught (ok a) = ok (ok a)
  caught (err e) = ok (err e)
  caught panic = panic

  -- defer d(), whose own error is dropped.
  abbrev pub after_deferred : Result A → Result (Unit {ℓ}) → Result A
  after_deferred r panic = panic
  after_deferred r (ok u) = r
  after_deferred r (err e) = r

module _ {ℓ} {S A : Type ℓ} where
  unfoldable pub pure : A → Action S A
  pure a s = (s, ok a)

  -- return errX
  unfoldable pub raise : Code → Action S A
  raise c s = (s, err (raised c))

  -- return err
  unfoldable pub throw : Error → Action S A
  throw e s = (s, err e)

  -- A nil pointer is read, or a panic is called.
  unfoldable pub crash : Action S A
  crash s = (s, panic)

  unfoldable pub gets : (S → A) → Action S A
  gets f s = (s, ok (f s))

  -- if err != nil { return errX.Wrap(err) }
  unfoldable pub wrapping : Code → Action S A → Action S A
  wrapping c m s = let (s', r) = m s in (s', wrap_result c r)

  -- The error of a call, as a value.
  unfoldable pub attempt : Action S A → Action S (Result A)
  attempt m s = let (s', r) = m s in (s', caught r)

  unfoldable pub deferring : Action S (Unit {ℓ}) → Action S A → Action S A
  deferring d m s = let (s', r) = m s in let (s'', q) = d s' in (s'', after_deferred r q)

  unfoldable pub when : Bool → Action S A → Action S A → Action S A
  when true m n = m
  when false m n = n

module _ {S : Type 0} where
  unfoldable pub modify : (S → S) → Action S (Unit {0})
  modify f s = (f s, ok tt)

  -- if !b { return errX }
  unfoldable pub require : Bool → Code → Action S (Unit {0})
  require true c s = (s, ok tt)
  require false c s = (s, err (raised c))

module _ {ℓ} {S A B : Type ℓ} where
  abbrev pub continue : Result A → (A → Action S B) → Action S B
  continue (ok a) f s = f a s
  continue (err e) f s = (s, err e)
  continue panic f s = (s, panic)

  infixl 5 ◌>>=◌ ◌>>◌
  unfoldable pub ◌>>=◌ : Action S A → (A → Action S B) → Action S B
  unfolding pure raise throw crash gets wrapping attempt when modify require
  ◌>>=◌ m f s = let (s', r) = m s in continue r f s'

  abbrev pub ◌>>◌ : Action S A → Action S B → Action S B
  m >> n = m >>= λ _. n

module _ {S A : Type 0} where
  -- for _, x := range xs { if err := f(x); err != nil { return err } }
  unfoldable pub each : (A → Action S (Unit {0})) → List A → Action S (Unit {0})
  each f [] = pure tt
  each f (x ∷ xs) = do f x; each f xs
