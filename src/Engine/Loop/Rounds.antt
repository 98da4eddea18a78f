-- ===== src/Engine/Loop/Rounds.antt =====
-- The rounds of the loop, one after the other.
use mo_link.Prelude.{
  ℕ, zero, suc, ◌≤◌, Bool, true, false, eqb, length, length-replicate, get_elem?, replicate, some,
  [], Result, ok, raise, assert, ◌>>◌, ◌≡◌, refl, sym, ap, subst, ◌∙◌, inl, inr, ◌⊎◌, arith,
}
use mo_link.Engine.Latency.{count_from}
use mo_link.Engine.Loop.{BatchNumbers, Loop, any_of, first_loop, wake, grow, poll_from, loop_round}
use mo_link.Engine.Loop.Counting.{length-count_from, All-count_from}
use mo_link.Engine.Loop.Running.{IsRunning, Keeps, grow-IsRunning, poll_from-Keeps, any_of_running}

module _ (numbers : BatchNumbers) where
  -- The loop before its first round, or after one.
  abbrev pub IsWaiting : Loop numbers → Type 0
  IsWaiting l = (any_of l.has_requests_in_progress ≡ false) × numbers.IsReady l.engine

  polled-Keeps :
      (done : ℕ → Bool) (l : Loop numbers)
      → IsRunning numbers l
      → Keeps numbers (length (grow numbers l).requests_in_progress) (
          assert (eqb (length l.requests_in_progress) (length l.has_requests_in_progress))
          >> poll_from numbers done 0
              (length (grow numbers l).requests_in_progress)
              (grow numbers l))
  polled-Keeps done l h =
      let equal : eqb (length l.requests_in_progress) (length l.has_requests_in_progress) ≡ true =
        ground (arith, h.counted) in
      rw equal (
        poll_from-Keeps numbers done 0 (length (grow numbers l).requests_in_progress)
          (grow numbers l) (omega arith) (grow-IsRunning numbers l h))

  first_of_replicate : (n : ℕ) → 1 ≤ n → get_elem? (replicate n true) 0 ≡ some true
  first_of_replicate zero h = absurd (omega arith)
  first_of_replicate (suc n) h = refl

  wake-IsRunning :
      (l : Loop numbers)
      → numbers.IsReady l.engine
      → (l' : Loop numbers) × (wake numbers l ≡ ok l') × IsRunning numbers l'
  unfolding wake
  wake-IsRunning l ready =
      let (b, s, found, low, high, ready') = numbers.ready_bounds l.engine ready in
      (
        record l {
          batch_num = b;
          engine = s;
          requests_in_progress = count_from 0 b;
          has_requests_in_progress = replicate b true;
          started = count_from 0 b;
        },
        rw found,
        record {
          counted = omega (arith, length-count_from 0 b, length-replicate b true);
          in_order = ap (count_from 0) (sym (length-count_from 0 b));
          within = omega (arith, length-count_from 0 b, high);
          positive = low;
          bounded = high;
          first_set = first_of_replicate b low;
          ready = ready';
          in_range = All-count_from 0 b numbers.contexts (omega (arith, high));
        },
      )

  Keeps-ok :
      (n : ℕ) (r : Result (Loop numbers))
      → Keeps numbers n r
      → (l : Loop numbers) × (r ≡ ok l) × IsRunning numbers l
  Keeps-ok n (ok l) h = (l, refl, h.0)
  Keeps-ok n (raise e) h = absurd h

  -- A round begins with nothing started.
  pub begin-IsRunning :
      (l : Loop numbers) → IsRunning numbers l → IsRunning numbers (record l { started = [] })
  begin-IsRunning l running = record {
    counted = running.counted;
    in_order = running.in_order;
    within = running.within;
    positive = running.positive;
    bounded = running.bounded;
    first_set = running.first_set;
    ready = running.ready;
    in_range = tt;
  }

  -- A round of the loop ends, from any state where it waits for requests or has served them before.
  pub loop_round-IsRunning :
      (done : ℕ → Bool) (l : Loop numbers)
      → IsWaiting l ⊎ IsRunning numbers l
      → (l' : Loop numbers) × (loop_round numbers done l ≡ ok l') × IsRunning numbers l'
  unfolding loop_round
  loop_round-IsRunning done l (inl (idle, ready)) =
      let (m, woken, running) = wake-IsRunning l ready in
      rw (idle, woken)
        (Keeps-ok (length (grow numbers m).requests_in_progress) _ (polled-Keeps done m running))
  loop_round-IsRunning done l (inr running) = rw (any_of_running numbers l running) (
      Keeps-ok (length (grow numbers (record l { started = [] })).requests_in_progress) _
        (polled-Keeps done (record l { started = [] }) (begin-IsRunning l running)))

  any_of_none : (n : ℕ) → any_of (replicate n false) ≡ false
  unfolding any_of
  any_of_none zero = refl
  any_of_none (suc n) = ground (arith, any_of_none n)

  -- The states that the loop comes to, where between two rounds the requests and the scheduler
  -- change as they will and the tasks finish as they will.
  pub data Reached (l : Loop numbers) : Loop numbers → Type 0 where
    one : {m : Loop numbers} (done : ℕ → Bool) → loop_round numbers done l ≡ ok m → Reached l m
    next :
        {m n : Loop numbers} (engine : numbers.State) (done : ℕ → Bool)
        → Reached l m
        → numbers.IsReady engine
        → loop_round numbers done (record m { engine = engine }) ≡ ok n
        → Reached l n

  with_engine :
      (l : Loop numbers) (engine : numbers.State)
      → numbers.IsReady engine
      → IsRunning numbers l
      → IsRunning numbers (record l { engine = engine })
  with_engine l engine ready h = record {
    counted = h.counted;
    in_order = h.in_order;
    within = h.within;
    positive = h.positive;
    bounded = h.bounded;
    first_set = h.first_set;
    ready = ready;
    in_range = h.in_range;
  }

  came_out :
      {r : Result (Loop numbers)} {m : Loop numbers}
      → r ≡ ok m
      → (l : Loop numbers) × (r ≡ ok l) × IsRunning numbers l
      → IsRunning numbers m
  came_out {r} {m} e (l, f, h) = subst (IsRunning numbers) (ok_injective (sym f ∙ e)) h
    where
      ok_injective : {x y : Loop numbers} → ok x ≡ ok y → x ≡ y
      ok_injective p = cc p

  -- From the first round on, whatever the requests and the tasks do, and where the engine answers
  -- with a number of batches between 1 and the number of its contexts: every round ends without an
  -- exception, its assertion included, the tasks are one for each context from 0 on, a step is only
  -- started for a context that the engine has, and the loop never waits for new requests again.
  pub run_engine_loop-IsRunning :
      (pipeline_parallel_size : ℕ) (engine : numbers.State) (l : Loop numbers)
      → numbers.IsReady engine
      → Reached (first_loop numbers pipeline_parallel_size engine) l
      → IsRunning numbers l
        × (any_of l.has_requests_in_progress ≡ true)
        × ((engine' : numbers.State) (done : ℕ → Bool)
            → numbers.IsReady engine'
            → (l' : Loop numbers) × (loop_round numbers done (record l { engine = engine' })
                ≡ ok l'))
  unfolding first_loop
  run_engine_loop-IsRunning size engine l ready reached =
      let running = reached-IsRunning l reached in
      (
        running,
        any_of_running numbers l running,
        λ engine' done ready'.
            let r =
              loop_round-IsRunning done (record l { engine = engine' })
                (inr (with_engine l engine' ready' running)) in
            (r.0, r.1),
      )
    where
      reached-IsRunning :
          (m : Loop numbers) → Reached (first_loop numbers size engine) m → IsRunning numbers m
      reached-IsRunning m (one done e) = came_out e (
          loop_round-IsRunning done (first_loop numbers size engine)
            (inl (any_of_none size, ready)))
      reached-IsRunning m (next {m = k} engine' done r ready' e) = came_out e (
          loop_round-IsRunning done (record k { engine = engine' })
            (inr (with_engine k engine' ready' (reached-IsRunning k r))))
