-- ===== src/Scheduler/Running/Outputs.antt =====
-- What `_schedule_running` returns, and what it leaves in the scheduler.
use mo_link.Prelude.{
  ℕ, ◌+◌, ◌≤◌, eqb, length, Bool, true, false, ◌≡◌, refl, Option, List, [], ◌∷◌, ◌++◌, Result, ok,
  raise, arith,
}
use mo_link.Scheduler.{Vllm, Scheduler}
use mo_link.Scheduler.Sweep.Invariant.{OrAssertion, OrAssertion-if}
use mo_link.Scheduler.Sweep.Conserved.{total, total-append}
use mo_link.Scheduler.Sweep.OnFly.{ids_of, IsExclusive}
use mo_link.Scheduler.Swapped.{select}
use mo_link.Scheduler.Swapped.Batch.{prefills_first-IsExclusive, total-select}
use mo_link.Scheduler.Running.{
  Running, RunningOutputs, run_loop, start_running, after_running, schedule_running,
}
use mo_link.Scheduler.Running.Room.{AreFinished}
use mo_link.Scheduler.Running.Batch.{Ended, run_loop-Ended, start-Batch}

module _ {v : Vllm} (sch : Scheduler v) (chunking : Bool) where
  -- The victims that the loop has freed, all of them finished.
  abbrev pub AreFreed : Option (List ℕ) → List v.Group → Type 0
  AreFreed loras freed =
      (ended : Running v) × (run_loop sch chunking (length sch.running) (start_running sch loras)
        ≡ ok ended)
      × (freed ≡ ended.freed)
      × AreFinished v freed

  -- Where the groups of the running queue go.
  abbrev pub IsRunningBatch :
      Option (List ℕ) → (v.Group → ℕ) → RunningOutputs v × Scheduler v → Type 0
  IsRunningBatch loras w (out, s) =
      IsExclusive sch.requests_on_fly
        (ids_of v out.prefill_seq_groups ++ ids_of v out.decode_seq_groups) s.requests_on_fly
      × (length out.prefill_seq_groups + length out.decode_seq_groups ≤ sch.schedule_limit)
      × ((freed : List v.Group) × AreFreed loras freed
          × (total (λ e. w e.seq_group) out.prefill_seq_groups
                + total (λ e. w e.seq_group) out.decode_seq_groups
                + total w out.preempted
                + total w out.swapped_out
                + total w s.async_stopped
                + total w freed
                + total w s.running
              ≡ total w sch.running))

  length-total : {A : Type 0} (xs : List A) → length xs ≡ total (λ x. 1) xs
  length-total [] = refl
  length-total (x ∷ xs) = omega (arith, length-total xs)

  after_running-IsRunningBatch :
      (w : v.Group → ℕ) (loras : Option (List ℕ)) (r : Result (Running v))
      → run_loop sch chunking (length sch.running) (start_running sch loras) ≡ r
      → OrAssertion (Ended sch chunking w (start_running sch loras)) r
      → OrAssertion (IsRunningBatch loras w) (after_running sch chunking r)
  unfolding after_running start_running
  after_running-IsRunningBatch w loras (ok s) looped
        (weights, (exclusive, counted, limited, finished), ended) =
      (
        prefills_first-IsExclusive sch chunking s.seq_groups s.requests_on_fly exclusive,
        omega (
          arith,
          limited,
          total-select (λ e. 1) s.seq_groups,
          length-total s.seq_groups,
          length-total (select v true s.seq_groups),
          length-total (select v false s.seq_groups),
        ),
        (
          s.freed,
          (s, looped, refl, finished),
          omega (
            arith,
            weights,
            total-select (λ e. w e.seq_group) s.seq_groups,
            total-append w s.reserve_queue s.queue,
          ),
        ),
      )
  after_running-IsRunningBatch w loras (raise e) looped h = h

  -- With or without chunking, at any state of vLLM, and whatever is preempted: the prefills and
  -- decodes of a batch of running groups have no request twice and none that was on the fly, they
  -- are at most as many as the limit for a micro batch, and those on the fly afterwards are those
  -- before and the batch's. No group of the running queue is lost or doubled: whatever weight the
  -- groups have, those of the batch, the preempted, swapped out and stopped ones, those that the
  -- loop freed, and the queue afterwards weigh as much as the queue before. Each freed group was
  -- finished after the output callback of a preemption, and none is freed without asynchronous
  -- output processing. Or else one of the scheduler's assertions fails.
  pub schedule_running-IsRunningBatch :
      (loras : Option (List ℕ)) (w : v.Group → ℕ)
      → OrAssertion (IsRunningBatch loras w) (schedule_running sch chunking loras)
  unfolding schedule_running start_running
  schedule_running-IsRunningBatch loras w =
      OrAssertion-if (IsRunningBatch loras w) (eqb (length sch.async_stopped) 0) _ _
        (after_running-IsRunningBatch w loras
          (run_loop sch chunking (length sch.running) (start_running sch loras)) refl
          (run_loop-Ended sch chunking w (length sch.running) (start_running sch loras)
            (omega arith) (start-Batch sch chunking loras)))
        refl
