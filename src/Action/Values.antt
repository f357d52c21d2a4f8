-- ===== src/Action/Values.antt =====
-- What holds of the value that an action returns.
use knuu.Prelude.{Bool, true, false, if◌then◌else◌}
use knuu.Errors.{Code, Error, Result, ok, err, panic}
use knuu.Action.{Action, pure, raise, throw, wrap_result, wrapping, ◌>>=◌, continue}

-- `P` holds of the value of a result that is no error.
abbrev pub OfValue : {A : Type 0} → (A → Type 0) → Result A → Type 0
OfValue P (ok a) = P a
OfValue P (err e) = Unit
OfValue P panic = Unit

pub record Yields {S A : Type 0} (P : A → Type 0) (m : Action S A) : Type 0 where
  pub at : (s : S) → OfValue P (m s).1

module _ {A : Type 0} where
  wrapped_value :
      (P : A → Type 0) (c : Code) (r : Result A) → OfValue P r → OfValue P (wrap_result c r)
  wrapped_value P c (ok a) h = h
  wrapped_value P c (err e) h = tt
  wrapped_value P c panic h = tt

  any_value : (r : Result A) → OfValue (λ a. Unit {0}) r
  any_value (ok a) = tt
  any_value (err e) = tt
  any_value panic = tt

module _ {S A : Type 0} (P : A → Type 0) where
  pub Yields-pure : (a : A) → P a → Yields P (pure {S = S} a)
  unfolding pure
  Yields-pure a h = record { at = λ s. h }

  pub Yields-raise : (c : Code) → Yields P (raise {S = S} c)
  unfolding raise
  Yields-raise c = record { at = λ s. tt }

  pub Yields-throw : (e : Error) → Yields P (throw {S = S} e)
  unfolding throw
  Yields-throw e = record { at = λ s. tt }

  pub Yields-wrapping : (c : Code) (m : Action S A) → Yields P m → Yields P (wrapping c m)
  unfolding wrapping
  Yields-wrapping c m h = record { at = λ s. wrapped_value P c (m s).1 (h.at s) }

  pub Yields-if :
      (b : Bool) (m n : Action S A) → Yields P m → Yields P n → Yields P (if b then m else n)
  Yields-if true m n h k = h
  Yields-if false m n h k = k

module _ {S A B : Type 0} (Q : A → Type 0) (P : B → Type 0) where
  bound_value :
      (f : A → Action S B) (o : S × Result A)
      → OfValue Q o.1
      → ((a : A) → Q a → Yields P (f a))
      → OfValue P (continue o.1 f o.0).1
  bound_value f (s, ok a) h k = (k a h).at s
  bound_value f (s, err e) h k = tt
  bound_value f (s, panic) h k = tt

  pub Yields-bind :
      (m : Action S A) (f : A → Action S B)
      → Yields Q m
      → ((a : A) → Q a → Yields P (f a))
      → Yields P (m >>= f)
  unfolding ◌>>=◌
  Yields-bind m f h k = record { at = λ s. bound_value f (m s) (h.at s) k }

module _ {S A B : Type 0} (P : B → Type 0) where
  -- Nothing is known of the value of the first part.
  pub Yields-after :
      (m : Action S A) (f : A → Action S B) → ((a : A) → Yields P (f a)) → Yields P (m >>= f)
  Yields-after m f k =
      Yields-bind (λ a. Unit) P m f (record { at = λ s. any_value (m s).1 }) (λ a h. k a)
