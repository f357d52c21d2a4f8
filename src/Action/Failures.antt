-- ===== src/Action/Failures.antt =====
-- Actions that have changed nothing of interest when they return an error.
use knuu.Prelude.{◌≡◌, ap, Bool, true, false, List, [], ◌∷◌}
use knuu.Errors.{Code, Error, Result, ok, err, panic}
use knuu.Action.{
  Action, pure, crash, gets, wrap_result, wrapping, when, modify, ◌>>=◌, continue, each,
}
use knuu.Action.Moves.{IsPreorder, Moves}

-- `R` holds of `s` and the state of an outcome that is an error.
abbrev pub OnErr {ℓ} : {S A : Type ℓ} → (S → S → Type ℓ) → S → S × Result A → Type ℓ
OnErr R s (s', ok a) = Unit
OnErr R s (s', err e) = R s s'
OnErr R s (s', panic) = Unit

pub record FailsIn {ℓ} {S A : Type ℓ} (R : S → S → Type ℓ) (m : Action S A) : Type ℓ where
  pub at : (s : S) → OnErr R s (m s)

-- `m` returns no error.
pub record NoError {S A : Type 0} (m : Action S A) : Type 0 where
  pub at : (s : S) → OnErr (λ t u. ⊥) s (m s)

module _ {S A : Type 0} (R : S → S → Type 0) where
  OnErr-map :
      (P : S → S → Type 0) (s : S) (o : S × Result A)
      → ((t : S) → P s t → R s t)
      → OnErr P s o
      → OnErr R s o
  OnErr-map P s (s', ok a) g h = tt
  OnErr-map P s (s', err e) g h = g s' h
  OnErr-map P s (s', panic) g h = tt

  OnErr-of : (s : S) (o : S × Result A) → R s o.0 → OnErr R s o
  OnErr-of s (s', ok a) h = tt
  OnErr-of s (s', err e) h = h
  OnErr-of s (s', panic) h = tt

  pub FailsIn-of_NoError : (m : Action S A) → NoError m → FailsIn R m
  FailsIn-of_NoError m h = record {
    at = λ s. OnErr-map (λ t u. ⊥) s (m s) (λ t x. absurd x) (h.at s);
  }

  pub FailsIn-of_Moves : (m : Action S A) → Moves R m → FailsIn R m
  FailsIn-of_Moves m h = record { at = λ s. OnErr-of s (m s) (h.at s) }

  OnErr-wrap :
      (c : Code) (s : S) (o : S × Result A) → OnErr R s o → OnErr R s (o.0, wrap_result c o.1)
  OnErr-wrap c s (s', ok a) h = tt
  OnErr-wrap c s (s', err e) h = h
  OnErr-wrap c s (s', panic) h = tt

  on_err : (s t : S) (e : Error) (o : S × Result A) → OnErr R s o → o.0 ≡ t → o.1 ≡ err e → R s t
  on_err s t e (s', ok a) k h h' = cc
  on_err s t e (s', err e') k h h' = rw (← h) k
  on_err s t e (s', panic) k h h' = cc

  pub FailsIn-on_err :
      {m : Action S A} → FailsIn R m → (s t : S) (e : Error) → m s ≡ (t, err e) → R s t
  FailsIn-on_err {m} k s t e h = on_err s t e (m s) (k.at s) (ap (λ o. o.0) h) (ap (λ o. o.1) h)

  pub FailsIn-when :
      (b : Bool) (m n : Action S A) → FailsIn R m → FailsIn R n → FailsIn R (when b m n)
  unfolding when
  FailsIn-when true m n h k = h
  FailsIn-when false m n h k = k

  pub FailsIn-wrapping : (c : Code) (m : Action S A) → FailsIn R m → FailsIn R (wrapping c m)
  unfolding wrapping
  FailsIn-wrapping c m h = record { at = λ s. OnErr-wrap c s (m s) (h.at s) }

module _ {S A B : Type 0} (R : S → S → Type 0) (p : IsPreorder R) where
  bind_outcome :
      (f : A → Action S B) (s : S) (o : S × Result A)
      → R s o.0
      → ((a : A) → FailsIn R (f a))
      → OnErr R s (continue o.1 f o.0)
  bind_outcome f s (s', ok a) h k =
      OnErr-map R (λ t u. R s' u) s (f a s') (λ t x. p.chain h x) ((k a).at s')
  bind_outcome f s (s', err e) h k = h
  bind_outcome f s (s', panic) h k = tt

  pub FailsIn-bind :
      (m : Action S A) (f : A → Action S B)
      → Moves R m
      → ((a : A) → FailsIn R (f a))
      → FailsIn R (m >>= f)
  unfolding ◌>>=◌
  FailsIn-bind m f h k = record { at = λ s. bind_outcome f s (m s) (h.at s) k }

module _ {S A B : Type 0} where
  NoError-outcome :
      (f : A → Action S B) (s : S) (o : S × Result A)
      → OnErr (λ t u. ⊥) s o
      → ((a : A) → NoError (f a))
      → OnErr (λ t u. ⊥) s (continue o.1 f o.0)
  NoError-outcome f s (s', ok a) h k =
      OnErr-map (λ t u. ⊥) (λ t u. ⊥) s (f a s') (λ t x. x) ((k a).at s')
  NoError-outcome f s (s', err e) h k = h
  NoError-outcome f s (s', panic) h k = tt

  pub NoError-bind :
      (m : Action S A) (f : A → Action S B)
      → NoError m
      → ((a : A) → NoError (f a))
      → NoError (m >>= f)
  unfolding ◌>>=◌
  NoError-bind m f h k = record { at = λ s. NoError-outcome f s (m s) (h.at s) k }

module _ {S A : Type 0} where
  pub NoError-pure : (a : A) → NoError (pure {S = S} a)
  unfolding pure
  NoError-pure a = record { at = λ s. tt }

  pub NoError-crash : NoError (crash {S = S} {A = A})
  unfolding crash
  NoError-crash = record { at = λ s. tt }

  pub NoError-gets : (g : S → A) → NoError (gets g)
  unfolding gets
  NoError-gets g = record { at = λ s. tt }

module _ {S : Type 0} where
  pub NoError-modify : (g : S → S) → NoError (modify g)
  unfolding modify
  NoError-modify g = record { at = λ s. tt }

  pub NoError-each :
      {A : Type 0} (f : A → Action S (Unit {0})) (xs : List A)
      → ((a : A) → NoError (f a))
      → NoError (each f xs)
  unfolding each
  NoError-each f [] k = NoError-pure tt
  NoError-each f (x ∷ xs) k = NoError-bind (f x) _ (k x) (λ _. NoError-each f xs k)

pub ruleset failure_rules = (
  FailsIn-of_NoError, FailsIn-of_Moves, FailsIn-when, FailsIn-wrapping, FailsIn-bind, NoError-bind,
  NoError-pure, NoError-crash, NoError-gets, NoError-modify, NoError-each,
)
