-- ===== src/K8s/Cluster/Store.antt =====
-- Servers without faults, which keep at most one object under each name. IsStore is for config
-- maps without finalizers, which are kept as they are sent and dropped at once. IsServer is for objects
-- whose fields the server assigns too, IsGraceful for those that stay for a while after Delete.
use knuu.Prelude.{◌≡◌, Bool, true, if◌then◌else◌, ◌⊎◌, Option, none, some}
use knuu.Prelude.Text.{Text, text_eq}
use knuu.Prelude.Int.{ℤ}
use knuu.Errors.{Result, ok, err, foreign, not_found, already_exists}
use knuu.Host.{Foreign}
use knuu.K8s.Cluster.{Api}

module _ {S A : Type 0} where
  -- What an object under the name, or none, makes of a call.
  abbrev pub got : S → Option A → S × Result A
  got x none = (x, err (foreign not_found))
  got x (some a) = (x, ok a)

  abbrev pub created : S → S → A → Option A → S × Result A
  created x x' a none = (x', ok a)
  created x x' a (some b) = (x, err (foreign already_exists))

  abbrev pub updated : S → S → A → Option A → S × Result A
  updated x x' a none = (x, err (foreign not_found))
  updated x x' a (some b) = (x', ok a)

  abbrev pub deleted : S → S → Option A → S × Result (Unit {0})
  deleted x x' none = (x, err (foreign not_found))
  deleted x x' (some b) = (x', ok tt)

module _ ⦃f : Foreign⦄ where
  -- `view` reads the objects off the outside; `put` and `drop` change one of them.
  pub record IsStore {A : Type 0} (api : Api A) (key : A → Text) : Type 0 where
    pub view : f.Outside → Text → Option A
    pub put : A → f.Outside → f.Outside
    pub drop : Text → f.Outside → f.Outside
    pub view_put :
        (a : A) (x : f.Outside) (n : Text)
        → view (put a x) n ≡ (if text_eq (key a) n then some a else view x n)
    pub view_drop :
        (m : Text) (x : f.Outside) (n : Text)
        → view (drop m x) n ≡ (if text_eq m n then none else view x n)
    pub get_lem : (n : Text) (x : f.Outside) → api.get n x ≡ got x (view x n)
    pub create_lem :
        (a : A) (x : f.Outside) → api.create a x ≡ created x (put a x) a (view x (key a))
    pub update_lem :
        (a : A) (x : f.Outside) → api.update a x ≡ updated x (put a x) a (view x (key a))
    pub delete_lem :
        (n : Text) (seconds : Option ℤ) (x : f.Outside)
        → api.delete n seconds x ≡ deleted x (drop n x) (view x n)

  -- `admitted` is what the server makes of an object that it is sent.
  pub record IsServer {A : Type 0} (api : Api A) (key : A → Text) : Type 0 where
    pub view : f.Outside → Text → Option A
    pub put : A → f.Outside → f.Outside
    pub admitted : A → f.Outside → A
    pub view_put :
        (a : A) (x : f.Outside) (n : Text)
        → view (put a x) n ≡ (if text_eq (key a) n then some (admitted a x) else view x n)
    pub get_lem : (n : Text) (x : f.Outside) → api.get n x ≡ got x (view x n)
    pub create_lem :
        (a : A) (x : f.Outside)
        → api.create a x ≡ created x (put a x) (admitted a x) (view x (key a))

  -- Delete marks an object, which stays until it has been shut down, or takes it away at once.
  pub record IsGraceful {A : Type 0} (api : Api A) (view : f.Outside → Text → Option A)
      : Type 0 where
    pub is_deleting : f.Outside → Text → Bool
    pub marked : Text → f.Outside → f.Outside
    pub delete_lem :
        (n : Text) (seconds : Option ℤ) (x : f.Outside)
        → api.delete n seconds x ≡ deleted x (marked n x) (view x n)
    pub marked_lem :
        (n : Text) (x : f.Outside)
        → (view (marked n x) n ≡ none) ⊎ (is_deleting (marked n x) n ≡ true)
