-- ===== src/Builder/Kaniko/Watching.antt =====
-- What waitForJobCompletion makes of the events of its watch, in their order.
use knuu.Prelude.{
  ℕ, zero, suc, ◌<◌, ◌≡◌, refl, ap, ◌∙◌, Bool, true, false, ◌||◌, Option, some, List, [], ◌∷◌, ◌++◌,
  length, All, arith,
}
use knuu.Prelude.Text.{codes}
use knuu.Prelude.Int.{pos, ltb_ℤ}
use knuu.Errors.{Result, ok, err, raised, kaniko_code}
use knuu.Errors.Kaniko.{watching_channel_close_unexpectedly, context_cancelled}
use knuu.Action.{pure, raise}
use knuu.Action.Stops.{bind_of_ok, wrapping_of_ok}
use knuu.Host.{Foreign, Call}
use knuu.K8s.Objects.{Job, JobEvent, channel_closed, other_object, context_done, job_event}
use knuu.K8s.Cluster.{Client}
use knuu.Builder.Kaniko.{on_event, wait_events, wait_for_job_completion}

module _ ⦃f : Foreign⦄ where
  -- An event that says nothing yet: an object of another type, or a job none of whose pods has ended.
  abbrev pub IsIdle : JobEvent → Type 0
  IsIdle other_object = Unit
  IsIdle (job_event j) = (j.succeeded ≡ pos 0) × (j.failed ≡ pos 0)
  IsIdle channel_closed = ⊥
  IsIdle context_done = ⊥

  -- What a deciding event is answered with: a job that has pods which have succeeded, or pods which
  -- have failed, with that job; the end of the watch or of the context with an error.
  pub data Decides : JobEvent → Result (Option Job) → Type 0 where
    by_success : (j : Job) → ltb_ℤ (pos 0) j.succeeded ≡ true → Decides (job_event j) (ok (some j))
    by_failure : (j : Job) → ltb_ℤ (pos 0) j.failed ≡ true → Decides (job_event j) (ok (some j))
    by_closing :
        Decides channel_closed (err (raised (kaniko_code watching_channel_close_unexpectedly)))
    by_context : Decides context_done (err (raised (kaniko_code context_cancelled)))

  module _ (c : Client) where
    -- The events come from the outside one after the other.
    abbrev pub Delivers : f.Outside → List JobEvent → f.Outside → Type 0
    Delivers x [] y = x ≡ y
    Delivers x (e ∷ es) y =
        (z : f.Outside) × ((c.clientset.next_job_event x ≡ (z, ok e)) × Delivers z es y)

    or_true : (a b : Bool) → b ≡ true → (a || b) ≡ true
    or_true true b h = refl
    or_true false b h = h

    decided :
        (e : JobEvent) (r : Result (Option Job)) (rest : Call (Option Job)) (x : f.Outside)
        → Decides e r
        → on_event e rest x ≡ (x, r)
    unfolding pure raise
    decided _ _ rest x (by_success j h) = rw h refl
    decided _ _ rest x (by_failure j h) = rw (or_true (ltb_ℤ (pos 0) j.succeeded) _ h) refl
    decided _ _ rest x by_closing = refl
    decided _ _ rest x by_context = refl

    idle : (e : JobEvent) (rest : Call (Option Job)) → IsIdle e → on_event e rest ≡ rest
    idle channel_closed rest h = absurd h
    idle other_object rest h = refl
    idle (job_event j) rest (s, t) = rw (s, t) refl
    idle context_done rest h = absurd h

    events_lem :
        (rounds : ℕ) (before : List JobEvent) (e : JobEvent) (r : Result (Option Job))
        (x y z : f.Outside)
        → length before < rounds
        → All IsIdle before
        → Decides e r
        → Delivers x before y
        → c.clientset.next_job_event y ≡ (z, ok e)
        → wait_events rounds c x ≡ (z, r)
    unfolding wait_events
    events_lem zero before e r x y z l i d v h = absurd (omega (arith, l))
    events_lem (suc rounds) [] e r x y z l i d v h =
        bind_of_ok c.clientset.next_job_event _ x z e (ap c.clientset.next_job_event v ∙ h)
        ∙ decided e r (wait_events rounds c) z d
    events_lem (suc rounds) (b ∷ before) e r x y z l (i, is) d (x', (n, v)) h =
        bind_of_ok c.clientset.next_job_event _ x x' b n
        ∙ (ap (λ m. m x') (idle b (wait_events rounds c) i)
            ∙ events_lem rounds before e r x' y z (omega (arith, l)) is d v h)

    -- Where the watch is set up and delivers, after events that say nothing yet, one that decides,
    -- waitForJobCompletion reads the events up to that one and returns its answer, within more rounds
    -- than there are events before it: the job of the event if pods of it have succeeded or have failed,
    -- and an error if the watch or the context has ended.
    pub wait_for_job_completion-Decides :
        (rounds : ℕ) (job : Job) (before : List JobEvent) (e : JobEvent) (r : Result (Option Job))
        (w x y z : f.Outside)
        → length before < rounds
        → c.clientset.watch_jobs c.namespace (codes "metadata.name=" ++ job.name) w ≡ (x, ok tt)
        → All IsIdle before
        → Decides e r
        → Delivers x before y
        → c.clientset.next_job_event y ≡ (z, ok e)
        → wait_for_job_completion rounds c job w ≡ (z, r)
    unfolding wait_for_job_completion
    wait_for_job_completion-Decides rounds job before e r w x y z l watched i d v h =
        bind_of_ok _ _ w x tt (wrapping_of_ok _ _ w x tt watched)
        ∙ events_lem rounds before e r x y z l i d v h
