-- ===== src/Action/Outcomes.antt =====
-- What holds of the state in which an action succeeds.
use knuu.Prelude.{◌≡◌, ap, Bool, true, false}
use knuu.Errors.{Code, Result, ok, err, panic}
use knuu.Action.Moves.{Moves}
use knuu.Action.{Action, wrap_result, wrapping, when, raise, ◌>>=◌, continue}

-- `P` holds of the state of an outcome that is no error.
abbrev pub OnOk {ℓ} : {S A : Type ℓ} → (S → Type ℓ) → S × Result A → Type ℓ
OnOk P (s', ok a) = P s'
OnOk P (s', err e) = Unit
OnOk P (s', panic) = Unit

pub record Ensures {ℓ} {S A : Type ℓ} (P : S → Type ℓ) (m : Action S A) : Type ℓ where
  pub at : (s : S) → OnOk P (m s)

module _ {S A : Type 0} (P : S → Type 0) where
  pub OnOk-of : (o : S × Result A) → P o.0 → OnOk P o
  OnOk-of (s', ok a) h = h
  OnOk-of (s', err e) h = tt
  OnOk-of (s', panic) h = tt

  pub OnOk-wrap : (c : Code) (o : S × Result A) → OnOk P o → OnOk P (o.0, wrap_result c o.1)
  OnOk-wrap c (s', ok a) h = h
  OnOk-wrap c (s', err e) h = tt
  OnOk-wrap c (s', panic) h = tt

  pub Ensures-wrapping : (c : Code) (m : Action S A) → Ensures P m → Ensures P (wrapping c m)
  unfolding wrapping
  Ensures-wrapping c m h = record { at = λ s. OnOk-wrap c (m s) (h.at s) }

  pub Ensures-when :
      (b : Bool) (m n : Action S A) → Ensures P m → Ensures P n → Ensures P (when b m n)
  unfolding when
  Ensures-when true m n h k = h
  Ensures-when false m n h k = k

  pub Ensures-raise : (c : Code) → Ensures P (raise {A = A} c)
  unfolding raise
  Ensures-raise c = record { at = λ s. tt }

  on_ok : (t : S) (a : A) (o : S × Result A) → OnOk P o → o.0 ≡ t → o.1 ≡ ok a → P t
  on_ok t a (s', ok b) k h h' = rw (← h) k
  on_ok t a (s', err e) k h h' = cc
  on_ok t a (s', panic) k h h' = cc

  pub Ensures-on_ok : {m : Action S A} → Ensures P m → (s t : S) (a : A) → m s ≡ (t, ok a) → P t
  Ensures-on_ok {m} k s t a h = on_ok t a (m s) (k.at s) (ap (λ o. o.0) h) (ap (λ o. o.1) h)

module _ {S A B : Type 0} (P : S → Type 0) where
  Ensures-outcome :
      (f : A → Action S B) (o : S × Result A)
      → ((a : A) → Ensures P (f a))
      → OnOk P (continue o.1 f o.0)
  Ensures-outcome f (s', ok a) k = (k a).at s'
  Ensures-outcome f (s', err e) k = tt
  Ensures-outcome f (s', panic) k = tt

  pub Ensures-bind :
      (m : Action S A) (f : A → Action S B) → ((a : A) → Ensures P (f a)) → Ensures P (m >>= f)
  unfolding ◌>>=◌
  Ensures-bind m f k = record { at = λ s. Ensures-outcome f (m s) k }

module _ {S B : Type 0} (P Q : S → Type 0) (R : S → S → Type 0) where
  OnOk-and :
      (s : S) (o : S × Result B)
      → P s
      → ((t : S) → R s t → P s → P t)
      → R s o.0
      → OnOk Q o
      → OnOk (λ t. P t × Q t) o
  OnOk-and s (t, ok b) p k r q = (k t r p, q)
  OnOk-and s (t, err e) p k r q = tt
  OnOk-and s (t, panic) p k r q = tt

  pub OnOk-use :
      (s : S) (o : S × Result B) → R s o.0 → ((t : S) → R s t → P t → Q t) → OnOk P o → OnOk Q o
  OnOk-use s (t, ok b) r k p = k t r p
  OnOk-use s (t, err e) r k p = tt
  OnOk-use s (t, panic) r k p = tt

module _ {S A B : Type 0} (P Q : S → Type 0) (R : S → S → Type 0) where
  both_outcome :
      (f : A → Action S B) (o : S × Result A)
      → ((s t : S) → R s t → P s → P t)
      → OnOk P o
      → ((a : A) → Ensures Q (f a))
      → ((a : A) → Moves R (f a))
      → OnOk (λ t. P t × Q t) (continue o.1 f o.0)
  both_outcome f (s, ok a) k p q r = OnOk-and P Q R s (f a s) p (k s) ((r a).at s) ((q a).at s)
  both_outcome f (s, err e) k p q r = tt
  both_outcome f (s, panic) k p q r = tt

  -- The first part ensures what the second keeps.
  pub Ensures-both :
      (m : Action S A) (f : A → Action S B)
      → ((s t : S) → R s t → P s → P t)
      → Ensures P m
      → ((a : A) → Ensures Q (f a))
      → ((a : A) → Moves R (f a))
      → Ensures (λ t. P t × Q t) (m >>= f)
  unfolding ◌>>=◌
  Ensures-both m f k p q r = record { at = λ s. both_outcome f (m s) k (p.at s) q r }

pub ruleset outcome_rules = (Ensures-wrapping, Ensures-when, Ensures-raise, Ensures-bind)
