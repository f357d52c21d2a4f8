-- ===== src/Action/Rounds.antt =====
-- Loops that count their rounds, whose result is none when the rounds run out: what never is none.
use knuu.Prelude.{◌≡◌, ◌≢◌, refl, Bool, true, false, Option, none}
use knuu.Errors.{Result, ok, err, panic}
use knuu.Action.{Action, when, ◌>>=◌, continue}

module _ {S A B : Type 0} (f : A → Action S (Option B)) where
  outcome_not_none :
      (p : S × Result A)
      → ((a : A) → p.1 ≡ ok a → (f a p.0).1 ≢ ok none)
      → (continue p.1 f p.0).1 ≢ ok none
  outcome_not_none (t, ok a) h = h a refl
  outcome_not_none (t, err e) h = λ e'. cc
  outcome_not_none (t, panic) h = λ e'. cc

  pub bind_not_none :
      (m : Action S A) (s : S)
      → ((a : A) → (m s).1 ≡ ok a → (f a (m s).0).1 ≢ ok none)
      → ((m >>= f) s).1 ≢ ok none
  unfolding ◌>>=◌
  bind_not_none m s h = outcome_not_none (m s) h

module _ {S B : Type 0} where
  pub when_not_none :
      (b : Bool) (m n : Action S (Option B)) (s : S)
      → (b ≡ true → (m s).1 ≢ ok none)
      → (b ≡ false → (n s).1 ≢ ok none)
      → (when b m n s).1 ≢ ok none
  unfolding when
  when_not_none true m n s h h' = h refl
  when_not_none false m n s h h' = h' refl
