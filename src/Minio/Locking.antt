-- ===== src/Minio/Locking.antt =====
-- createBucketIfNotExists of pkg/minio for one bucket, called from any number of goroutines on one Minio:
-- the steps that it takes between the accesses to what they share. The errors of the two calls of the
-- store are steps too; nobody else makes or removes the bucket.
pub mod Once
use knuu.Prelude.{
  ℕ, suc, ◌+◌, ◌≤◌, ◌≡◌, ◌≢◌, refl, sym, ap, ◌∙◌, Bool, true, false, ◌==◌, if◌then◌else◌, Option,
  none, some, inl, inr, arith, Bool-cases,
}

-- Where a goroutine is: not in the function; having read the mutex of the bucket from muMap; about to
-- lock a mutex; holding it; having asked whether the bucket exists; and about to unlock it.
pub data Place : Type 0 where
  idle : Place
  looked : Option ℕ → Place
  wants locked leaving : ℕ → Place
  seen : ℕ → Bool → Place

-- `cell` is the mutex of the bucket in muMap, `next` a mutex that nobody has, `held` says which are
-- locked; `made` counts the buckets that the store has made.
pub record Shared : Type 0 where
  pub cell : Option ℕ
  pub next : ℕ
  pub held : ℕ → Bool
  pub place : ℕ → Place
  pub exists : Bool
  pub made : ℕ

abbrev pub set : {A : Type 0} → ℕ → A → (ℕ → A) → ℕ → A
set i a g j = if i == j then a else g j

abbrev pub moved : ℕ → Place → Shared → Shared
moved i p s = record s { place = set i p s.place }

pub data Step (s t : Shared) : Type 0 where
  look : (i : ℕ) → s.place i ≡ idle → t ≡ moved i (looked s.cell) s → Step s t
  reuse : (i m : ℕ) → s.place i ≡ looked (some m) → t ≡ moved i (wants m) s → Step s t
  allocate :
      (i : ℕ)
      → s.place i ≡ looked none
      → t ≡ moved i (wants s.next) (record s { cell = some s.next; next = suc s.next })
      → Step s t
  lock :
      (i m : ℕ)
      → s.place i ≡ wants m
      → s.held m ≡ false
      → t ≡ moved i (locked m) (record s { held = set m true s.held })
      → Step s t
  ask : (i m : ℕ) → s.place i ≡ locked m → t ≡ moved i (seen m s.exists) s → Step s t
  ask_fails : (i m : ℕ) → s.place i ≡ locked m → t ≡ moved i (leaving m) s → Step s t
  skip : (i m : ℕ) → s.place i ≡ seen m true → t ≡ moved i (leaving m) s → Step s t
  make :
      (i m : ℕ)
      → s.place i ≡ seen m false
      → t ≡ moved i (leaving m) (record s { exists = true; made = suc s.made })
      → Step s t
  make_fails : (i m : ℕ) → s.place i ≡ seen m false → t ≡ moved i (leaving m) s → Step s t
  unlock :
      (i m : ℕ)
      → s.place i ≡ leaving m
      → t ≡ moved i idle (record s { held = set m false s.held })
      → Step s t

pub data Reach (s : Shared) : Shared → Type 0 where
  here : Reach s s
  after : {t u : Shared} → Reach s t → Step t u → Reach s u

-- Nobody is in the function, no mutex is locked and nothing has been made.
abbrev pub beginning : Option ℕ → ℕ → Bool → Shared
beginning cell fresh exists = record {
  cell = cell;
  next = fresh;
  held = λ m. false;
  place = λ i. idle;
  exists = exists;
  made = 0;
}

abbrev pub bit : Bool → ℕ
bit true = 1
bit false = 0
