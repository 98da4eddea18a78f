-- ===== src/Scheduler/Chunked/Together.antt =====
-- The batch that `_schedule_chunked_prefill` puts together.
use mo_link.Prelude.{
  ℕ, ◌+◌, ◌≤◌, String, ◌==◌, eq_iff, elem, Unique, leb, eqb, length, true, false, ◌&&◌, ◌≡◌, refl,
  ap, ◌⊎◌, inl, inr, Bool-cases, some, List, [], ◌∷◌, ◌++◌, Result, ok, raise, assertion_error,
  attribute_error, ◌>>=◌, arith, if◌then◌else◌,
}
use mo_link.Scheduler.{Vllm, Scheduler}
use mo_link.Scheduler.Sweep.{Scheduled}
use mo_link.Scheduler.Sweep.Invariant.{OrAssertion, OrAssertion-map}
use mo_link.Scheduler.Sweep.Conserved.{total, total-append}
use mo_link.Scheduler.Sweep.OnFly.{ids_of, IsExclusive}
use mo_link.Scheduler.Prefills.{PrefillOutputs, schedule_prefills}
use mo_link.Scheduler.Prefills.Batch.{IsBatch, schedule_prefills-IsBatch}
use mo_link.Scheduler.Swapped.{SwappedInOutputs}
use mo_link.Scheduler.Swapped.Batch.{schedule_swapped-IsBatch}
use mo_link.Scheduler.Running.{RunningOutputs, schedule_running}
use mo_link.Scheduler.Running.Outputs.{IsRunningBatch, schedule_running-IsRunningBatch}
use mo_link.Scheduler.Chunked.{
  SchedulerOutputs, of_none, swap_phase, update_queues, together, conclude, with_budget,
  schedule_chunked_prefill,
}

-- How often a request is in a list.
abbrev times : String → List String → ℕ
times r xs = total (λ x. if x == r then 1 else 0) xs

abbrev has : String → List String → ℕ
has r xs = if elem r xs then 1 else 0

times-absent : (r : String) (xs : List String) → elem r xs ≡ false → times r xs ≡ 0
unfolding elem
times-absent r [] h = refl
times-absent r (x ∷ xs) h = ground (arith, times-absent r xs)

times-present : (r : String) (xs : List String) → elem r xs ≡ true → 1 ≤ times r xs
unfolding elem
times-present r [] h = ground arith
times-present r (x ∷ xs) h = ground (arith, times-present r xs)

times-Unique : (r : String) (xs : List String) → Unique xs → times r xs ≤ 1
unfolding elem
times-Unique r [] u = omega arith
times-Unique r (x ∷ xs) u = ground (arith, eq_iff x r, times-absent r xs, times-Unique r xs u.1)

once-Unique : (xs : List String) → ((r : String) → times r xs ≤ 1) → Unique xs
once-Unique [] h = tt
once-Unique (x ∷ xs) h =
    (ground (arith, h x, eq_iff x x, times-present x xs), once-Unique xs (λ r. ground (arith, h r)))

-- The requests on the fly afterwards, counted.
IsExclusive-times :
    (before batch after : List String)
    → IsExclusive before batch after
    → (r : String) → times r batch + has r before ≡ has r after
IsExclusive-times before batch after h r = ground (
  arith,
  h.marked r,
  h.fresh r,
  times-Unique r batch h.unique,
  times-present r batch,
  times-absent r batch,
)

times-IsExclusive :
    (before batch after : List String)
    → ((r : String) → times r batch + has r before ≡ has r after)
    → (Unique before → Unique after)
    → IsExclusive before batch after
times-IsExclusive before batch after h set = record {
  unique = once-Unique batch (λ r. ground (arith, h r));
  fresh = λ r e. ground (arith, h r, times-present r batch);
  marked = λ r. ground (arith, h r, times-present r batch, times-absent r batch);
  still_set = set;
}

nothing-IsExclusive : (before : List String) → IsExclusive before [] before
unfolding elem
nothing-IsExclusive before = record {
  unique = tt;
  fresh = λ r e. ground (arith, e);
  marked = λ r. refl;
  still_set = λ u. u;
}

module _ {v : Vllm} where
  ids-append : (xs ys : List (Scheduled v)) → ids_of v (xs ++ ys) ≡ ids_of v xs ++ ids_of v ys
  ids-append [] ys = refl
  ids-append (x ∷ xs) ys = ap (◌∷◌ (v.request_id x.seq_group)) (ids-append xs ys)

  times-ids :
      (r : String) (xs ys : List (Scheduled v))
      → times r (ids_of v (xs ++ ys)) ≡ times r (ids_of v xs) + times r (ids_of v ys)
  times-ids r xs ys =
      rw (ids-append xs ys)
        (total-append (λ x. if x == r then 1 else 0) (ids_of v xs) (ids_of v ys))

  times-together :
      (r : String) (a b c d e : List (Scheduled v))
      → times r (ids_of v (a ++ b ++ c ++ d ++ e))
        ≡ times r (ids_of v b ++ ids_of v d)
          + times r (ids_of v c ++ ids_of v e)
          + times r (ids_of v a)
  times-together r a b c d e = omega (
    arith,
    times-ids r (a ++ b ++ c ++ d) e,
    times-ids r (a ++ b ++ c) d,
    times-ids r (a ++ b) c,
    times-ids r a b,
    total-append (λ x. if x == r then 1 else 0) (ids_of v b) (ids_of v d),
    total-append (λ x. if x == r then 1 else 0) (ids_of v c) (ids_of v e),
  )

  abbrev pub IsExclusiveBatch : List String → Result (SchedulerOutputs v × Scheduler v) → Type 0
  IsExclusiveBatch before (ok (out, s)) =
      IsExclusive before (ids_of v out.scheduled_seq_groups) s.requests_on_fly
  IsExclusiveBatch before (raise e) = (e ≡ assertion_error) ⊎ (e ≡ attribute_error)

  conclude-IsExclusiveBatch :
      (before after_running after_swapped : List String) (running_scheduled : RunningOutputs v)
      (swapped_in : SwappedInOutputs v) (prefills : PrefillOutputs v) (s : Scheduler v)
      → IsExclusive before
          (ids_of v running_scheduled.prefill_seq_groups
            ++ ids_of v running_scheduled.decode_seq_groups)
          after_running
      → IsExclusive after_running
          (ids_of v swapped_in.prefill_seq_groups ++ ids_of v swapped_in.decode_seq_groups)
          after_swapped
      → IsExclusive after_swapped (ids_of v prefills.seq_groups) s.requests_on_fly
      → IsExclusiveBatch before (conclude running_scheduled swapped_in (prefills, s))
  unfolding conclude update_queues together
  conclude-IsExclusiveBatch before mid mid' running_scheduled swapped_in prefills s h k l =
      elim (Bool-cases
        (leb (v.num_batched_tokens s.mem) s.max_num_batched_tokens && v.seqs_fit s.mem)) [
          | inr out ↦ rw out (inl refl)
          | inl within ↦ rw within (
              times-IsExclusive before _ s.requests_on_fly
                (λ r. omega (
                  arith,
                  times-together r prefills.seq_groups running_scheduled.prefill_seq_groups
                      swapped_in.prefill_seq_groups running_scheduled.decode_seq_groups
                      swapped_in.decode_seq_groups,
                  IsExclusive-times before _ mid h r,
                  IsExclusive-times mid _ mid' k r,
                  IsExclusive-times mid' _ s.requests_on_fly l r,
                ))
                (λ u. l.still_set (k.still_set (h.still_set u))))
        ]

  prefills_phase :
      (before mid mid' : List String) (running_scheduled : RunningOutputs v)
      (swapped_in : SwappedInOutputs v) (r : Result (PrefillOutputs v × Scheduler v))
      → IsExclusive before
          (ids_of v running_scheduled.prefill_seq_groups
            ++ ids_of v running_scheduled.decode_seq_groups)
          mid
      → IsExclusive mid
          (ids_of v swapped_in.prefill_seq_groups ++ ids_of v swapped_in.decode_seq_groups)
          mid'
      → OrAssertion (λ p. IsExclusive mid' (ids_of v p.0.seq_groups) p.1.requests_on_fly) r
      → IsExclusiveBatch before (r >>= conclude running_scheduled swapped_in)
  prefills_phase before mid mid' out swapped_in (ok (prefills, s)) h k l =
      conclude-IsExclusiveBatch before mid mid' out swapped_in prefills s h k l
  prefills_phase before mid mid' out swapped_in (raise e) h k l = inl l

  swapped_phase :
      (before mid : List String) (running_scheduled : RunningOutputs v)
      (r : Result (SwappedInOutputs v × Scheduler v))
      → IsExclusive before
          (ids_of v running_scheduled.prefill_seq_groups
            ++ ids_of v running_scheduled.decode_seq_groups)
          mid
      → OrAssertion
          (λ w.
            IsExclusive mid
              (ids_of v w.0.prefill_seq_groups ++ ids_of v w.0.decode_seq_groups)
              w.1.requests_on_fly)
          r
      → IsExclusiveBatch before
          (r >>= λ w. schedule_prefills w.1 true w.1.curr_loras >>= conclude running_scheduled w.0)
  swapped_phase before mid running_scheduled (ok (swapped_in, s)) h k =
      prefills_phase before mid s.requests_on_fly running_scheduled swapped_in
        (schedule_prefills s true s.curr_loras) h k
        (OrAssertion-map (IsBatch s true) _ (schedule_prefills s true s.curr_loras)
          (λ p both. both.0) (schedule_prefills-IsBatch s true s.curr_loras))
  swapped_phase before mid running_scheduled (raise e) h k = inl k

  -- The swapped queue is read only when nothing was preempted.
  swap_phase-Exclusive :
      (r : RunningOutputs v × Scheduler v)
      → OrAssertion
          (λ w.
            IsExclusive r.1.requests_on_fly
              (ids_of v w.0.prefill_seq_groups ++ ids_of v w.0.decode_seq_groups)
              w.1.requests_on_fly)
          (swap_phase r)
  unfolding swap_phase
  swap_phase-Exclusive (out, s) =
      elim (Bool-cases (eqb (length out.preempted + length out.swapped_out) 0)) [
        | inl nothing ↦ rw nothing (schedule_swapped-IsBatch s false s.curr_loras)
        | inr some_preempted ↦ rw some_preempted (nothing-IsExclusive s.requests_on_fly)
      ]

  running_phase :
      (sch : Scheduler v) (r : Result (RunningOutputs v × Scheduler v))
      → OrAssertion (IsRunningBatch sch true (some []) (λ g. 0)) r
      → IsExclusiveBatch sch.requests_on_fly (
          of_none r >>= λ r.
          swap_phase r >>= λ w. schedule_prefills w.1 true w.1.curr_loras >>= conclude r.0 w.0)
  unfolding of_none
  running_phase sch (ok (out, s)) h =
      swapped_phase sch.requests_on_fly s.requests_on_fly out (swap_phase (out, s)) h.0
        (swap_phase-Exclusive (out, s))
  running_phase sch (raise e) h = inr refl

  -- The batch that chunked prefill puts together from the running, the swapped and the waiting queue
  -- has no request twice and none that was on the fly, so no two batches in the pipeline share one,
  -- and the requests on the fly afterwards are those before and the batch's. Or else an assertion
  -- fails, or the running part returned None and its attributes are asked for.
  pub schedule_chunked_prefill-IsExclusiveBatch :
      (sch : Scheduler v) → IsExclusiveBatch sch.requests_on_fly (schedule_chunked_prefill sch)
  unfolding schedule_chunked_prefill with_budget
  schedule_chunked_prefill-IsExclusiveBatch sch =
      running_phase (with_budget sch) (schedule_running (with_budget sch) true (some []))
        (schedule_running-IsRunningBatch (with_budget sch) true (some []) (λ g. 0))
