-- ===== src/Engine/Flight.antt =====
-- The micro batches that are executed at the same time: the parts of `step_async` before and after the
-- wait for the model, molink/engine/molink_engine.py, with chunked prefill; without it, a batch is put
-- together by vLLM's own `_schedule_default`. vLLM's schedule makes the metadata of a batch from its
-- scheduled groups, one for each, and vLLM says whether the batch has steps left, as it may with
-- multi-step scheduling. An exception after the wait ends the engine and is not modelled.
pub mod Apart
use mo_link.Prelude.{
  ℕ, zero, suc, String, List, [], ◌∷◌, Option, none, some, get_elem?, Result, ok, raise, ◌>>=◌,
  Bool, if◌then◌else◌,
}
use mo_link.Scheduler.{Vllm, Scheduler, mark_all_as_schedule_free}
use mo_link.Scheduler.Sweep.OnFly.{ids_of}
use mo_link.Scheduler.Chunked.{SchedulerOutputs, schedule_chunked_prefill}

-- The scheduler, the requests of each batch whose step waits for the model, and those of each batch
-- whose step has returned with steps left.
pub record Flight (v : Vllm) : Type 0 where
  pub scheduler : Scheduler v
  pub flying : List (List String)
  pub unfinished : List (List String)

-- A step begins; the model has answered for the batch at a place of the list, which then has steps
-- left (`self._has_remaining_steps`) or not; or requests are added, aborted or finished, which is
-- vLLM's and leaves the set of requests on the fly as it is.
pub data Event (v : Vllm) : Type 0 where
  begin_step : Event v
  end_step : ℕ → Bool → Event v
  vllm_step : Scheduler v → Event v

abbrev pub drop_at {ℓ} : {A : Type ℓ} → List A → ℕ → List A
drop_at [] i = []
drop_at (x ∷ xs) zero = xs
drop_at (x ∷ xs) (suc i) = x ∷ drop_at xs i

module _ {v : Vllm} where
  -- A step without a batch returns at once.
  unfoldable pub launch : Flight v → SchedulerOutputs v × Scheduler v → Flight v
  launch f (out, s) = record f {
    scheduler = s;
    flying = elim (ids_of v out.scheduled_seq_groups) [
      | [] ↦ f.flying
      | r ∷ rs ↦ (r ∷ rs) ∷ f.flying
    ];
  }

  unfoldable pub free_batch : Flight v → ℕ → Option (List String) → Flight v
  unfolding mark_all_as_schedule_free
  free_batch f i none = f
  free_batch f i (some batch) = record f {
    scheduler = mark_all_as_schedule_free f.scheduler batch;
    flying = drop_at f.flying i;
  }

  -- A batch with steps left is not freed.
  unfoldable pub leave_batch : Flight v → ℕ → Option (List String) → Flight v
  leave_batch f i none = f
  leave_batch f i (some batch) = record f {
    flying = drop_at f.flying i;
    unfinished = batch ∷ f.unfinished;
  }

  unfoldable pub end_batch : Flight v → ℕ → Bool → Option (List String) → Flight v
  unfolding free_batch leave_batch
  end_batch f i remaining batch = if remaining then leave_batch f i batch else free_batch f i batch

  unfoldable pub step : Flight v → Event v → Result (Flight v)
  unfolding schedule_chunked_prefill launch end_batch
  step f begin_step = schedule_chunked_prefill f.scheduler >>= λ r. ok (launch f r)
  step f (end_step i remaining) = ok (end_batch f i remaining (get_elem? f.flying i))
  step f (vllm_step s) =
      ok (record f { scheduler = record s { requests_on_fly = f.scheduler.requests_on_fly } })

  unfoldable pub run : Flight v → List (Event v) → Result (Flight v)
  unfolding step
  run f [] = ok f
  run f (e ∷ events) = step f e >>= λ f'. run f' events

  -- An engine of which no step has begun.
  abbrev pub grounded : Scheduler v → Flight v
  grounded s = record {
    scheduler = record s { requests_on_fly = [] };
    flying = [];
    unfinished = [];
  }
