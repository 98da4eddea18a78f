-- ===== src/Engine/Flight/Apart.antt =====
-- No two batches in flight have a request in common.
use mo_link.Prelude.{
  ℕ, zero, suc, String, elem, Unique, Bool, true, false, ◌≡◌, refl, ◌⊎◌, Option, none, some, List,
  [], ◌∷◌, get_elem?, Result, ok, raise, assertion_error, attribute_error, ◌>>=◌, arith, subst,
  if◌then◌else◌,
}
use mo_link.Scheduler.{Vllm, Scheduler, mark_seq_as_schedule_free, mark_all_as_schedule_free}
use mo_link.Scheduler.Sweep.OnFly.{ids_of, IsExclusive}
use mo_link.Scheduler.Release.{elem-mark, elem-mark_all}
use mo_link.Scheduler.Chunked.{SchedulerOutputs, schedule_chunked_prefill}
use mo_link.Scheduler.Chunked.Together.{IsExclusiveBatch, schedule_chunked_prefill-IsExclusiveBatch}
use mo_link.Engine.Flight.{
  Flight, Event, begin_step, end_step, vllm_step, drop_at, launch, free_batch, leave_batch,
  end_batch, step, run, grounded,
}

-- One of the batches has the request.
abbrev pub is_flying : String → List (List String) → Bool
is_flying r [] = false
is_flying r (batch ∷ flying) = if elem r batch then true else is_flying r flying

-- No batch has a request twice, and none has one of a batch after it in the list.
abbrev pub AreApart : List (List String) → Type 0
AreApart [] = Unit
AreApart (batch ∷ flying) =
    Unique batch
    × ((r : String) → elem r batch ≡ true → is_flying r flying ≡ false)
    × AreApart flying

is_flying-drop_at :
    (r : String) (flying : List (List String)) (i : ℕ)
    → is_flying r flying ≡ false
    → is_flying r (drop_at flying i) ≡ false
is_flying-drop_at r [] i h = refl
is_flying-drop_at r (batch ∷ flying) zero h = ground (arith, h)
is_flying-drop_at r (batch ∷ flying) (suc i) h = ground (arith, h, is_flying-drop_at r flying i)

drop_at-AreApart :
    (flying : List (List String)) (i : ℕ) → AreApart flying → AreApart (drop_at flying i)
drop_at-AreApart [] i h = tt
drop_at-AreApart (batch ∷ flying) zero (unique, others, h) = h
drop_at-AreApart (batch ∷ flying) (suc i) (unique, others, h) = (
  unique,
  (λ r member. is_flying-drop_at r flying i (others r member)),
  drop_at-AreApart flying i h,
)

is_flying_in :
    (r : String) (flying : List (List String)) (i : ℕ) (batch : List String)
    → get_elem? flying i ≡ some batch
    → elem r batch ≡ true
    → is_flying r flying ≡ true
is_flying_in r [] i batch at member = absurd (ground (arith, at))
is_flying_in r (b ∷ flying) zero batch at member = ground (arith, at, member)
is_flying_in r (b ∷ flying) (suc i) batch at member =
    ground (arith, is_flying_in r flying i batch at member)

batch-Unique :
    (flying : List (List String)) (i : ℕ) (batch : List String)
    → AreApart flying
    → get_elem? flying i ≡ some batch
    → Unique batch
batch-Unique [] i batch h at = absurd (ground (arith, at))
batch-Unique (b ∷ flying) zero batch h at = let same : b ≡ batch = cc in subst Unique same h.0
batch-Unique (b ∷ flying) (suc i) batch h at = batch-Unique flying i batch h.2 at

-- A request of a batch is in that batch alone.
is_flying-at :
    (r : String) (flying : List (List String)) (i : ℕ) (batch : List String)
    → AreApart flying
    → get_elem? flying i ≡ some batch
    → is_flying r (drop_at flying i) ≡ (if elem r batch then false else is_flying r flying)
is_flying-at r [] i batch h at = absurd (ground (arith, at))
is_flying-at r (b ∷ flying) zero batch (unique, others, h) at = ground (arith, at, others r)
is_flying-at r (b ∷ flying) (suc i) batch (unique, others, h) at =
    ground (arith, others r, is_flying-at r flying i batch h at, is_flying_in r flying i batch at)

-- The batches that are executed, those with steps left, and the requests on the fly.
abbrev pub AreOnFly : List (List String) → List (List String) → List String → Type 0
AreOnFly flying unfinished on_fly =
    AreApart flying
    × AreApart unfinished
    × ((r : String) → is_flying r flying ≡ true → is_flying r unfinished ≡ false)
    × Unique on_fly
    × ((r : String) → elem r on_fly ≡ (if is_flying r flying then true else is_flying r unfinished))

launched :
    (flying unfinished : List (List String)) (batch before after : List String)
    → AreOnFly flying unfinished before
    → IsExclusive before batch after
    → AreOnFly (batch ∷ flying) unfinished after
launched flying unfinished batch before after (apart, apart', disjoint, unique, same) h = (
  (h.unique, (λ r member. ground (arith, same r, h.fresh r member)), apart),
  apart',
  λ r e. ground (arith, same r, h.fresh r, disjoint r),
  h.still_set unique,
  λ r. ground (arith, h.marked r, same r),
)

module _ {v : Vllm} where
  abbrev pub IsApart : Flight v → Type 0
  IsApart f = AreOnFly f.flying f.unfinished f.scheduler.requests_on_fly

  mark_all-Unique :
      (rs : List String) (s : Scheduler v)
      → Unique s.requests_on_fly
      → Unique (mark_all_as_schedule_free s rs).requests_on_fly
  unfolding mark_all_as_schedule_free
  mark_all-Unique [] s u = u
  mark_all-Unique (r ∷ rs) s u =
      mark_all-Unique rs (mark_seq_as_schedule_free s r) (elem-mark s r r u).1

  -- A step without a batch leaves the list as it was.
  launch-IsApart :
      (f : Flight v) (out : SchedulerOutputs v) (s : Scheduler v)
      → IsApart f
      → IsExclusive f.scheduler.requests_on_fly
          (ids_of v out.scheduled_seq_groups)
          s.requests_on_fly
      → IsApart (launch f (out, s))
  unfolding launch elem
  launch-IsApart f out s apart h = split (ids_of v out.scheduled_seq_groups) (
      launched f.flying f.unfinished (ids_of v out.scheduled_seq_groups) f.scheduler.requests_on_fly
        s.requests_on_fly apart h)
    where
      split :
          (batch : List String)
          → AreOnFly (batch ∷ f.flying) f.unfinished s.requests_on_fly
          → IsApart (record f {
            scheduler = s;
            flying = elim batch [ [] ↦ f.flying | r ∷ rs ↦ (r ∷ rs) ∷ f.flying ];
          })
      split [] (apart, apart', disjoint, unique, same) = (apart.2, apart', disjoint, unique, same)
      split (r ∷ rs) h = h

  free_batch-IsApart :
      (f : Flight v) (i : ℕ) (o : Option (List String))
      → get_elem? f.flying i ≡ o
      → IsApart f
      → IsApart (free_batch f i o)
  unfolding free_batch
  free_batch-IsApart f i none at h = h
  free_batch-IsApart f i (some batch) at (apart, apart', disjoint, unique, same) = (
    drop_at-AreApart f.flying i apart,
    apart',
    λ r e. ground (arith, is_flying-at r f.flying i batch apart at, disjoint r),
    mark_all-Unique batch f.scheduler unique,
    λ r. ground (
      arith,
      elem-mark_all batch f.scheduler r unique,
      same r,
      is_flying-at r f.flying i batch apart at,
      is_flying_in r f.flying i batch at,
      disjoint r,
    ),
  )

  leave_batch-IsApart :
      (f : Flight v) (i : ℕ) (o : Option (List String))
      → get_elem? f.flying i ≡ o
      → IsApart f
      → IsApart (leave_batch f i o)
  unfolding leave_batch
  leave_batch-IsApart f i none at h = h
  leave_batch-IsApart f i (some batch) at (apart, apart', disjoint, unique, same) = (
    drop_at-AreApart f.flying i apart,
    (
      batch-Unique f.flying i batch apart at,
      (λ r member. disjoint r (is_flying_in r f.flying i batch at member)),
      apart',
    ),
    λ r e. ground (arith, is_flying-at r f.flying i batch apart at, disjoint r),
    unique,
    λ r. ground (
      arith,
      same r,
      is_flying-at r f.flying i batch apart at,
      is_flying_in r f.flying i batch at,
    ),
  )

  end_batch-IsApart :
      (f : Flight v) (i : ℕ) (remaining : Bool) (o : Option (List String))
      → get_elem? f.flying i ≡ o
      → IsApart f
      → IsApart (end_batch f i remaining o)
  unfolding end_batch
  end_batch-IsApart f i true o at h = leave_batch-IsApart f i o at h
  end_batch-IsApart f i false o at h = free_batch-IsApart f i o at h

  abbrev pub EndsApart : Result (Flight v) → Type 0
  EndsApart (ok f) = IsApart f
  EndsApart (raise e) = (e ≡ assertion_error) ⊎ (e ≡ attribute_error)

  begin-EndsApart :
      (f : Flight v) (r : Result (SchedulerOutputs v × Scheduler v))
      → IsApart f
      → IsExclusiveBatch f.scheduler.requests_on_fly r
      → EndsApart (r >>= λ made. ok (launch f made))
  begin-EndsApart f (ok (out, s)) apart h = launch-IsApart f out s apart h
  begin-EndsApart f (raise e) apart h = h

  step-EndsApart : (f : Flight v) (e : Event v) → IsApart f → EndsApart (step f e)
  unfolding step
  step-EndsApart f begin_step h =
      begin-EndsApart f (schedule_chunked_prefill f.scheduler) h
        (schedule_chunked_prefill-IsExclusiveBatch f.scheduler)
  step-EndsApart f (end_step i remaining) h =
      end_batch-IsApart f i remaining (get_elem? f.flying i) refl h
  step-EndsApart f (vllm_step s) h = h

  then-EndsApart :
      (r : Result (Flight v)) (events : List (Event v))
      → EndsApart r
      → ((f : Flight v) → IsApart f → EndsApart (run f events))
      → EndsApart (r >>= λ f. run f events)
  then-EndsApart (ok f) events h rest = rest f h
  then-EndsApart (raise e) events h rest = h

  run_on-EndsApart : (f : Flight v) (events : List (Event v)) → IsApart f → EndsApart (run f events)
  unfolding run
  run_on-EndsApart f [] h = h
  run_on-EndsApart f (e ∷ events) h =
      then-EndsApart (step f e) events (step-EndsApart f e h)
        (λ f' h'. run_on-EndsApart f' events h')

  -- With chunked prefill, however the steps of the micro batches begin and end between one another,
  -- with steps left or without, and whatever vLLM does to the queues in between: no two batches that
  -- are executed at the same time have a request in common, none has one twice, and none has one of a
  -- batch whose step has returned with steps left. The requests on the fly are exactly those of the
  -- batches that are executed and of those that have returned with steps left. Or else an assertion
  -- has failed, or an attribute of None was asked for.
  pub run-EndsApart :
      (s : Scheduler v) (events : List (Event v)) → EndsApart (run (grounded s) events)
  unfolding elem
  run-EndsApart s events =
      run_on-EndsApart (grounded s) events (tt, tt, (λ r e. refl), tt, λ r. refl)
