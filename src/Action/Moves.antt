-- ===== src/Action/Moves.antt =====
-- Relations between the state before an action and the state after it, whatever its result: one
-- rule for each way to build an action.
use knuu.Prelude.{Bool, true, false, List, [], ◌∷◌}
use knuu.Errors.{Code, Error, Result, ok, err, panic}
use knuu.Action.{
  Action, pure, raise, throw, crash, gets, wrapping, attempt, deferring, when, modify, require,
  ◌>>=◌, continue, each,
}

pub record IsPreorder {ℓ} {S : Type ℓ} (R : S → S → Type ℓ) : Type ℓ where
  pub same : (s : S) → R s s
  pub chain : {s t u : S} → R s t → R t u → R s u

-- `m` goes from a state to a related one, whether it succeeds or fails.
pub record Moves {ℓ} {S A : Type ℓ} (R : S → S → Type ℓ) (m : Action S A) : Type ℓ where
  pub at : (s : S) → R s (m s).0

module _ {ℓ} {S : Type ℓ} {R : S → S → Type ℓ} (p : IsPreorder R) where
  pub Moves-pure : {A : Type ℓ} (a : A) → Moves R (pure a)
  unfolding pure
  Moves-pure a = record { at = p.same }

  pub Moves-raise : {A : Type ℓ} (c : Code) → Moves R (raise {A = A} c)
  unfolding raise
  Moves-raise c = record { at = p.same }

  pub Moves-throw : {A : Type ℓ} (e : Error) → Moves R (throw {A = A} e)
  unfolding throw
  Moves-throw e = record { at = p.same }

  pub Moves-crash : {A : Type ℓ} → Moves R (crash {S = S} {A = A})
  unfolding crash
  Moves-crash = record { at = p.same }

  pub Moves-gets : {A : Type ℓ} (f : S → A) → Moves R (gets f)
  unfolding gets
  Moves-gets f = record { at = p.same }

  Moves-continue :
      {A B : Type ℓ} (r : Result A) (f : A → Action S B)
      → ((a : A) → Moves R (f a))
      → Moves R (continue r f)
  Moves-continue (ok a) f k = k a
  Moves-continue (err e) f k = record { at = p.same }
  Moves-continue panic f k = record { at = p.same }

  pub Moves-bind :
      {A B : Type ℓ} (m : Action S A) (f : A → Action S B)
      → Moves R m
      → ((a : A) → Moves R (f a))
      → Moves R (m >>= f)
  unfolding ◌>>=◌
  Moves-bind m f h k = record {
    at = λ s. let (s', r) = m s in p.chain (h.at s) ((Moves-continue r f k).at s');
  }

module _ {ℓ} {S A : Type ℓ} {R : S → S → Type ℓ} where
  pub Moves-wrapping : (c : Code) (m : Action S A) → Moves R m → Moves R (wrapping c m)
  unfolding wrapping
  Moves-wrapping c m h = record { at = h.at }

  pub Moves-attempt : (m : Action S A) → Moves R m → Moves R (attempt m)
  unfolding attempt
  Moves-attempt m h = record { at = h.at }

  pub Moves-when : (b : Bool) (m n : Action S A) → Moves R m → Moves R n → Moves R (when b m n)
  unfolding when
  Moves-when true m n h k = h
  Moves-when false m n h k = k

module _ {S : Type 0} {R : S → S → Type 0} (p : IsPreorder R) where
  pub Moves-deferring :
      {A : Type 0} (d : Action S (Unit {0})) (m : Action S A)
      → Moves R d
      → Moves R m
      → Moves R (deferring d m)
  unfolding deferring
  Moves-deferring d m h k = record { at = λ s. let (t, r) = m s in p.chain (k.at s) (h.at t) }

  pub Moves-require : (b : Bool) (c : Code) → Moves R (require b c)
  unfolding require
  Moves-require true c = record { at = p.same }
  Moves-require false c = record { at = p.same }

  pub Moves-each :
      {A : Type 0} (f : A → Action S (Unit {0})) (xs : List A)
      → ((a : A) → Moves R (f a))
      → Moves R (each f xs)
  unfolding each
  Moves-each f [] k = Moves-pure p tt
  Moves-each f (x ∷ xs) k = Moves-bind p (f x) _ (k x) (λ _. Moves-each f xs k)

pub Moves-modify :
    {S : Type 0} {R : S → S → Type 0} (f : S → S) → ((s : S) → R s (f s)) → Moves R (modify f)
unfolding modify
Moves-modify f h = record { at = h }

pub ruleset moves_rules = (
  Moves-pure, Moves-raise, Moves-throw, Moves-crash, Moves-gets, Moves-bind, Moves-wrapping,
  Moves-attempt, Moves-when, Moves-require, Moves-each, Moves-deferring,
)
