-- ===== src/Scheduler/Chunked/Conserved.antt =====
-- What `_schedule_chunked_prefill` does with the groups of the three queues.
use mo_link.Prelude.{
  ℕ, ◌+◌, ◌≤◌, leb, eqb, length, true, false, ◌&&◌, ◌≡◌, refl, ◌⊎◌, inl, inr, Bool-cases, some,
  List, [], ◌∷◌, ◌++◌, map, Result, ok, raise, assertion_error, attribute_error, ◌>>=◌, arith,
}
use mo_link.Scheduler.{Vllm, Scheduler}
use mo_link.Scheduler.Sweep.{Scheduled}
use mo_link.Scheduler.Sweep.Invariant.{OrAssertion, OrAssertion-map}
use mo_link.Scheduler.Sweep.Conserved.{total, total-append, total-extendleft}
use mo_link.Scheduler.Prefills.{PrefillOutputs, schedule_prefills}
use mo_link.Scheduler.Prefills.Batch as PrefillsBatch
use mo_link.Scheduler.Prefills.Batch.{schedule_prefills-Conserves}
use mo_link.Scheduler.Swapped.{SwappedInOutputs, schedule_swapped}
use mo_link.Scheduler.Swapped.Batch as SwappedBatch
use mo_link.Scheduler.Swapped.Batch.{schedule_swapped-Conserves}
use mo_link.Scheduler.Running.{RunningOutputs, schedule_running}
use mo_link.Scheduler.Running.Outputs.{AreFreed, IsRunningBatch}
use mo_link.Scheduler.Chunked.{
  SchedulerOutputs, groups_of, of_none, swap_phase, update_queues, together, conclude, with_budget,
  schedule_chunked_prefill,
}
use mo_link.Scheduler.Chunked.Keeps.{
  KeepsForRunning, KeepsForSwapped, KeepsForPrefills, schedule_running-Keeps,
  schedule_swapped-Keeps, schedule_prefills-Keeps,
}

module _ {v : Vllm} (w : v.Group → ℕ) where
  abbrev batch_weight : List (Scheduled v) → ℕ
  batch_weight es = total (λ e. w e.seq_group) es

  total-groups : (es : List (Scheduled v)) → total w (groups_of v es) ≡ batch_weight es
  unfolding groups_of
  total-groups [] = refl
  total-groups (e ∷ es) = omega (arith, total-groups es)

  total-with_chunks :
      (es : List (Scheduled v))
      → total {A = v.Group × ℕ} (λ g. w g.0) (map (λ e. (e.seq_group, e.token_chunk_size)) es)
        ≡ batch_weight es
  total-with_chunks [] = refl
  total-with_chunks (e ∷ es) = omega (arith, total-with_chunks es)

  -- Where the groups of the three queues are after the schedule, and that the batch is running.
  abbrev ConservedFrom :
      (began : Scheduler v) → Scheduler v → Result (SchedulerOutputs v × Scheduler v) → Type 0
  ConservedFrom began sch (ok (out, s)) =
      ((freed : List v.Group) × AreFreed began true (some []) freed
        × (total w s.waiting
              + total w s.running
              + total w s.swapped
              + total w s.async_stopped
              + total w out.ignored_seq_groups
              + total w freed
            ≡ total w sch.waiting + total w sch.running + total w sch.swapped))
      × (batch_weight out.scheduled_seq_groups ≤ total w s.running)
  ConservedFrom began sch (raise e) = (e ≡ assertion_error) ⊎ (e ≡ attribute_error)

  -- What is freed is what the running part frees, which begins with a new budget.
  abbrev pub IsConserved : Scheduler v → Result (SchedulerOutputs v × Scheduler v) → Type 0
  IsConserved sch r = ConservedFrom (with_budget sch) sch r

  module _
      (order_weight : (m : v.Mem) (gs : List (v.Group × ℕ))
        → total w (v.order_finishing_prefills_first m gs) ≡ total (λ g. w g.0) gs) where
    running_weight :
        (running_scheduled : RunningOutputs v) (swapped_in : SwappedInOutputs v)
        (prefills : PrefillOutputs v) (s : Scheduler v)
        → total w (update_queues running_scheduled swapped_in prefills s).running
          ≡ total w s.running
            + batch_weight (together running_scheduled swapped_in prefills 0).scheduled_seq_groups
    unfolding update_queues together
    running_weight o i p s =
        let moved : List (v.Group × ℕ) =
          map (λ e. (e.seq_group, e.token_chunk_size)) o.prefill_seq_groups in
        let ordered = v.order_finishing_prefills_first s.mem moved in
        let q1 = s.running ++ groups_of v i.decode_seq_groups in
        let q2 = q1 ++ groups_of v i.prefill_seq_groups in
        let q3 = q2 ++ groups_of v o.decode_seq_groups in
        let b1 = p.seq_groups ++ o.prefill_seq_groups in
        let b2 = b1 ++ i.prefill_seq_groups in
        let b3 = b2 ++ o.decode_seq_groups in
        let u : Scheduled v → ℕ = λ e. w e.seq_group in
        omega (
          arith,
          total-append w (q3 ++ ordered) (groups_of v p.seq_groups),
          total-append w q3 ordered,
          total-append w q2 (groups_of v o.decode_seq_groups),
          total-append w q1 (groups_of v i.prefill_seq_groups),
          total-append w s.running (groups_of v i.decode_seq_groups),
          order_weight s.mem moved,
          total-with_chunks o.prefill_seq_groups,
          total-groups p.seq_groups,
          total-groups o.decode_seq_groups,
          total-groups i.prefill_seq_groups,
          total-groups i.decode_seq_groups,
          total-append u b3 i.decode_seq_groups,
          total-append u b2 o.decode_seq_groups,
          total-append u b1 i.prefill_seq_groups,
          total-append u p.seq_groups o.prefill_seq_groups,
        )

    -- What is left to show after the running part and the swapped part.
    abbrev AfterTwo : Scheduler v → RunningOutputs v → SwappedInOutputs v → Scheduler v → Type 0
    AfterTwo sch o i s =
        (total w s.waiting ≡ total w sch.waiting)
        × ((freed : List v.Group) × AreFreed sch true (some []) freed
            × (batch_weight o.prefill_seq_groups
                  + batch_weight o.decode_seq_groups
                  + batch_weight i.prefill_seq_groups
                  + batch_weight i.decode_seq_groups
                  + total w o.preempted
                  + total w o.swapped_out
                  + total w i.infeasible_seq_groups
                  + total w s.async_stopped
                  + total w freed
                  + total w s.running
                  + total w s.swapped
                ≡ total w sch.running + total w sch.swapped))

    batch_parts :
        (o : RunningOutputs v) (i : SwappedInOutputs v) (p : PrefillOutputs v)
        → batch_weight (together o i p 0).scheduled_seq_groups
          ≡ batch_weight p.seq_groups
            + batch_weight o.prefill_seq_groups
            + batch_weight i.prefill_seq_groups
            + batch_weight o.decode_seq_groups
            + batch_weight i.decode_seq_groups
    unfolding together
    batch_parts o i p =
        let b1 = p.seq_groups ++ o.prefill_seq_groups in
        let b2 = b1 ++ i.prefill_seq_groups in
        let b3 = b2 ++ o.decode_seq_groups in
        let u : Scheduled v → ℕ = λ e. w e.seq_group in
        omega (
          arith,
          total-append u b3 i.decode_seq_groups,
          total-append u b2 o.decode_seq_groups,
          total-append u b1 i.prefill_seq_groups,
          total-append u p.seq_groups o.prefill_seq_groups,
        )

    queues-Conserved :
        (sch : Scheduler v) (o : RunningOutputs v) (i : SwappedInOutputs v) (s : Scheduler v)
        (p : PrefillOutputs v) (s' : Scheduler v) (size : ℕ)
        → AfterTwo sch o i s
        → PrefillsBatch.Conserves s true w (p, s') × KeepsForPrefills w s (p, s')
        → ConservedFrom sch sch (ok (together o i p size, update_queues o i p s'))
    unfolding update_queues together
    queues-Conserved sch o i s p s' size (waits, (freed, were_freed, balance))
          (conserved, (swapped, running, stopped)) =
        (
          (
            freed,
            were_freed,
            omega (
              arith,
              waits,
              balance,
              conserved,
              swapped,
              running,
              stopped,
              running_weight o i p s',
              batch_parts o i p,
              total-extendleft w s'.waiting o.preempted,
              total-append w s'.swapped o.swapped_out,
              total-append w p.ignored_seq_groups i.infeasible_seq_groups,
            ),
          ),
          omega (arith, running_weight o i p s'),
        )

    conclude-IsConserved :
        (sch : Scheduler v) (o : RunningOutputs v) (i : SwappedInOutputs v) (s : Scheduler v)
        (r : Result (PrefillOutputs v × Scheduler v))
        → AfterTwo sch o i s
        → OrAssertion (λ p. PrefillsBatch.Conserves s true w p × KeepsForPrefills w s p) r
        → ConservedFrom sch sch (r >>= conclude o i)
    unfolding conclude
    conclude-IsConserved sch o i s (raise e) two h = inl h
    conclude-IsConserved sch o i s (ok (p, s')) two h =
        elim (Bool-cases
          (leb (v.num_batched_tokens s'.mem) s'.max_num_batched_tokens && v.seqs_fit s'.mem)) [
            | inl within ↦
                rw within
                  (queues-Conserved sch o i s p s' (length (update_queues o i p s').running) two h)
            | inr out ↦ rw out (inl refl)
          ]

    swap_phase-AfterTwo :
        (sch : Scheduler v) (r : RunningOutputs v × Scheduler v)
        → IsRunningBatch sch true (some []) w r × KeepsForRunning w sch r
        → OrAssertion (λ i. AfterTwo sch r.0 i.0 i.1) (swap_phase r)
    unfolding swap_phase
    swap_phase-AfterTwo sch (o, s)
          ((exclusive, limited, (freed, were_freed, balance)), (waits, swaps)) =
        elim (Bool-cases (eqb (length o.preempted + length o.swapped_out) 0)) [
          | inl nothing ↦ rw nothing (
              OrAssertion-map (λ i. SwappedBatch.Conserves s false w i × KeepsForSwapped w s i)
                (λ i. AfterTwo sch o i.0 i.1) (schedule_swapped s false s.curr_loras)
                (λ i kept. (
                  omega (arith, kept.1.0, waits),
                  (freed, were_freed, omega (arith, balance, swaps, kept.0, kept.1.1, kept.1.2)),
                ))
                (schedule_swapped-Keeps w s s.curr_loras))
          | inr some_preempted ↦
              rw some_preempted ((waits, (freed, were_freed, omega (arith, balance, swaps))))
        ]

    swapped_phase :
        (sch : Scheduler v) (o : RunningOutputs v) (r : Result (SwappedInOutputs v × Scheduler v))
        → OrAssertion (λ i. AfterTwo sch o i.0 i.1) r
        → ConservedFrom sch sch
            (r >>= λ i. schedule_prefills i.1 true i.1.curr_loras >>= conclude o i.0)
    swapped_phase sch o (ok (i, s)) two =
        conclude-IsConserved sch o i s (schedule_prefills s true s.curr_loras) two
          (schedule_prefills-Keeps w s s.curr_loras)
    swapped_phase sch o (raise e) h = inl h

    running_phase :
        (sch : Scheduler v) (r : Result (RunningOutputs v × Scheduler v))
        → OrAssertion (λ p. IsRunningBatch sch true (some []) w p × KeepsForRunning w sch p) r
        → ConservedFrom sch sch (
            of_none r >>= λ r.
            swap_phase r >>= λ i. schedule_prefills i.1 true i.1.curr_loras >>= conclude r.0 i.0)
    unfolding of_none
    running_phase sch (ok (o, s)) h =
        swapped_phase sch o (swap_phase (o, s)) (swap_phase-AfterTwo sch (o, s) h)
    running_phase sch (raise e) h = inr refl

    -- Where the reordering of prefills that finish keeps the groups' weight, no group of the three
    -- queues is lost or doubled by chunked prefill: whatever weight the groups have, those in the
    -- queues afterwards, the stopped and the ignored ones and those that the loop over the running
    -- queue freed weigh as much as the three queues before, and the batch weighs at most what the
    -- running queue does. Each freed group was finished after the output callback of a preemption,
    -- and none is freed without asynchronous output processing. Or else an assertion fails, or the
    -- running part returned None and its attributes are asked for.
    pub schedule_chunked_prefill-IsConserved :
        (sch : Scheduler v) → IsConserved sch (schedule_chunked_prefill sch)
    unfolding schedule_chunked_prefill with_budget
    schedule_chunked_prefill-IsConserved sch =
        running_phase (with_budget sch) (schedule_running (with_budget sch) true (some []))
          (schedule_running-Keeps w (with_budget sch) (some []))
