-- ===== src/Engine/Loop.antt =====
-- `run_engine_loop`: the loop that starts a step of the engine for each micro batch and starts it
-- again when it is done. The coroutine of a step is known by its context, the second argument of
-- `engine_step`; what `done()` answers for the task of a context is a parameter of each round.
pub mod Counting
pub mod Running
pub mod Rounds
pub mod Restarts
use mo_link.Prelude.{
  ℕ, zero, suc, ◌-◌, Bool, true, false, ◌||◌, leb, eqb, length, replicate, set, List, [], ◌∷◌, ◌++◌,
  Result, ok, raise, assert, ◌>>=◌, ◌>>◌, ◌≤◌, ◌≡◌, if◌then◌else◌,
}
use mo_link.Engine.Latency.{count_from}

-- What the loop asks of the engine: the next number of micro batches, which is never above the
-- number of contexts.
pub record BatchNumbers : Type 1 where
  pub State : Type 0
  pub contexts : ℕ
  pub next_batch_num : State → Result (ℕ × State)
  pub IsReady : State → Type 0
  pub ready_bounds :
      (s : State)
      → IsReady s
      → (b : ℕ) × (s' : State) × (next_batch_num s ≡ ok (b, s'))
        × (1 ≤ b)
        × (b ≤ contexts)
        × IsReady s'

unfoldable pub any_of : List Bool → Bool
any_of [] = false
any_of (b ∷ bs) = b || any_of bs

module _ (numbers : BatchNumbers) where
  pub record Loop : Type 0 where
    pub has_requests_in_progress : List Bool
    pub requests_in_progress : List ℕ
    pub batch_num : ℕ
    pub engine : numbers.State
    -- the contexts for which this round has created a task
    pub started : List ℕ

  -- Before the first round; the tasks are not bound yet.
  unfoldable pub first_loop : ℕ → numbers.State → Loop
  first_loop pipeline_parallel_size engine = record {
    has_requests_in_progress = replicate pipeline_parallel_size false;
    requests_in_progress = [];
    batch_num = 1;
    engine = engine;
    started = [];
  }

  -- New requests have come.
  unfoldable pub wake : Loop → Result Loop
  unfolding count_from
  wake l = numbers.next_batch_num l.engine >>= λ r. ok (record l {
    batch_num = r.0;
    engine = r.1;
    requests_in_progress = count_from 0 r.0;
    has_requests_in_progress = replicate r.0 true;
    started = count_from 0 r.0;
  })

  unfoldable pub grow : Loop → Loop
  unfolding count_from
  grow l =
      let cur_len = length l.requests_in_progress in
      let added = count_from cur_len (l.batch_num - cur_len) in
      record l {
        requests_in_progress = l.requests_in_progress ++ added;
        has_requests_in_progress =
            l.has_requests_in_progress ++ replicate (l.batch_num - cur_len) true;
        started = l.started ++ added;
      }

  unfoldable pub restart : ℕ → Loop → Result Loop
  restart idx l =
      let l' = record l {
        requests_in_progress = set l.requests_in_progress idx idx;
        has_requests_in_progress = set l.has_requests_in_progress idx true;
        started = l.started ++ idx ∷ [];
      } in
      if eqb idx 0
      then (numbers.next_batch_num l'.engine >>= λ r.
          ok (record l' { batch_num = r.0; engine = r.1 }))
      else ok l'

  unfoldable pub poll : (ℕ → Bool) → ℕ → Loop → Result Loop
  unfolding restart
  poll done idx l =
      if leb l.batch_num idx
      then ok (record l { has_requests_in_progress = set l.has_requests_in_progress idx false })
      else if done idx
      then restart idx l
      else ok l

  -- for idx in range(len(requests_in_progress)), with the rounds left
  unfoldable pub poll_from : (ℕ → Bool) → ℕ → ℕ → Loop → Result Loop
  unfolding poll
  poll_from done idx zero l = ok l
  poll_from done idx (suc n) l = poll done idx l >>= λ l'. poll_from done (suc idx) n l'

  unfoldable pub loop_round : (ℕ → Bool) → Loop → Result Loop
  unfolding any_of wake grow poll_from
  loop_round done l =
      (if any_of l.has_requests_in_progress then ok (record l { started = [] }) else wake l)
      >>= λ l'.
          assert (eqb (length l'.requests_in_progress) (length l'.has_requests_in_progress))
          >> poll_from done 0 (length (grow l').requests_in_progress) (grow l')
