-- ===== src/Scheduler/Chunked/Keeps.antt =====
-- What each part of a schedule does with the groups of its queue and the others.
use mo_link.Prelude.{
  ℕ, eqb, length, Bool, true, false, ◌≡◌, refl, Option, List, [], Result, ok, raise,
  assertion_error, if◌then◌else◌,
}
use mo_link.Scheduler.{Vllm, Scheduler}
use mo_link.Scheduler.Sweep.{Sweep}
use mo_link.Scheduler.Sweep.Invariant.{OrAssertion}
use mo_link.Scheduler.Sweep.Conserved.{total}
use mo_link.Scheduler.Prefills.{PrefillOutputs, after_prefills, schedule_prefills}
use mo_link.Scheduler.Prefills.Batch as PrefillsBatch
use mo_link.Scheduler.Prefills.Batch.{schedule_prefills-Conserves}
use mo_link.Scheduler.Swapped.{SwappedInOutputs, after_swapped, schedule_swapped}
use mo_link.Scheduler.Swapped.Batch as SwappedBatch
use mo_link.Scheduler.Swapped.Batch.{schedule_swapped-Conserves}
use mo_link.Scheduler.Running.{
  Running, RunningOutputs, run_loop, start_running, after_running, schedule_running,
}
use mo_link.Scheduler.Running.Outputs.{IsRunningBatch, schedule_running-IsRunningBatch}

module _ {v : Vllm} (w : v.Group → ℕ) where
  -- The weight of the queues that stay as they are.
  abbrev pub KeepsForRunning : Scheduler v → RunningOutputs v × Scheduler v → Type 0
  KeepsForRunning sch (out, s) =
      (total w s.waiting ≡ total w sch.waiting) × (total w s.swapped ≡ total w sch.swapped)

  abbrev pub KeepsForSwapped : Scheduler v → SwappedInOutputs v × Scheduler v → Type 0
  KeepsForSwapped sch (out, s) =
      (total w s.waiting ≡ total w sch.waiting)
      × (total w s.running ≡ total w sch.running)
      × (total w s.async_stopped ≡ total w sch.async_stopped)

  abbrev pub KeepsForPrefills : Scheduler v → PrefillOutputs v × Scheduler v → Type 0
  KeepsForPrefills sch (out, s) =
      (total w s.swapped ≡ total w sch.swapped)
      × (total w s.running ≡ total w sch.running)
      × (total w s.async_stopped ≡ total w sch.async_stopped)

  after_running-Keeps :
      (P : RunningOutputs v × Scheduler v → Type 0) (sch : Scheduler v) (r : Result (Running v))
      → OrAssertion P (after_running sch true r)
      → OrAssertion (λ p. P p × KeepsForRunning sch p) (after_running sch true r)
  unfolding after_running
  after_running-Keeps P sch (ok s) h = (h, (refl, refl))
  after_running-Keeps P sch (raise e) h = h

  pub schedule_running-Keeps :
      (sch : Scheduler v) (loras : Option (List ℕ))
      → OrAssertion
          (λ p. IsRunningBatch sch true loras w p × KeepsForRunning sch p)
          (schedule_running sch true loras)
  unfolding schedule_running
  schedule_running-Keeps sch loras =
      running_if (eqb (length sch.async_stopped) 0)
        (run_loop sch true (length sch.running) (start_running sch loras))
        (schedule_running-IsRunningBatch sch true loras w)
    where
      running_if :
          (b : Bool) (r : Result (Running v))
          → OrAssertion
              (IsRunningBatch sch true loras w)
              (if b then after_running sch true r else raise assertion_error)
          → OrAssertion
              (λ p. IsRunningBatch sch true loras w p × KeepsForRunning sch p)
              (if b then after_running sch true r else raise assertion_error)
      running_if true r h = after_running-Keeps (IsRunningBatch sch true loras w) sch r h
      running_if false r h = h

  after_swapped-Keeps :
      (P : SwappedInOutputs v × Scheduler v → Type 0) (sch : Scheduler v)
      (r : Result (Sweep v × List v.Group))
      → OrAssertion P (after_swapped sch false r)
      → OrAssertion (λ p. P p × KeepsForSwapped sch p) (after_swapped sch false r)
  unfolding after_swapped
  after_swapped-Keeps P sch (ok (s, rest)) h = (h, (refl, refl, refl))
  after_swapped-Keeps P sch (raise e) h = h

  pub schedule_swapped-Keeps :
      (sch : Scheduler v) (loras : Option (List ℕ))
      → OrAssertion
          (λ p. SwappedBatch.Conserves sch false w p × KeepsForSwapped sch p)
          (schedule_swapped sch false loras)
  unfolding schedule_swapped
  schedule_swapped-Keeps sch loras =
      after_swapped-Keeps (SwappedBatch.Conserves sch false w) sch _
        (schedule_swapped-Conserves sch false loras w)

  after_prefills-Keeps :
      (P : PrefillOutputs v × Scheduler v → Type 0) (sch : Scheduler v)
      (r : Result (Sweep v × List v.Group))
      → OrAssertion P (after_prefills sch true r)
      → OrAssertion (λ p. P p × KeepsForPrefills sch p) (after_prefills sch true r)
  unfolding after_prefills
  after_prefills-Keeps P sch (ok (s, rest)) h = (h, (refl, refl, refl))
  after_prefills-Keeps P sch (raise e) h = h

  pub schedule_prefills-Keeps :
      (sch : Scheduler v) (loras : Option (List ℕ))
      → OrAssertion
          (λ p. PrefillsBatch.Conserves sch true w p × KeepsForPrefills sch p)
          (schedule_prefills sch true loras)
  unfolding schedule_prefills
  schedule_prefills-Keeps sch loras =
      prefills_if (v.is_spent sch.mem) _ (schedule_prefills-Conserves sch true loras w)
    where
      empty : PrefillOutputs v
      empty = record {
        seq_groups = [];
        ignored_seq_groups = [];
        num_lookahead_slots = v.num_lookahead_slots true true;
      }

      prefills_if :
          (b : Bool) (r : Result (Sweep v × List v.Group))
          → OrAssertion
              (PrefillsBatch.Conserves sch true w)
              (if b then ok (empty, sch) else after_prefills sch true r)
          → OrAssertion
              (λ p. PrefillsBatch.Conserves sch true w p × KeepsForPrefills sch p)
              (if b then ok (empty, sch) else after_prefills sch true r)
      prefills_if true r h = (h, (refl, refl, refl))
      prefills_if false r h = after_prefills-Keeps (PrefillsBatch.Conserves sch true w) sch r h
