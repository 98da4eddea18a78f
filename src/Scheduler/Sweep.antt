-- ===== src/Scheduler/Sweep.antt =====
-- The loop that `_schedule_prefills` and `_schedule_swapped` share: it looks at the first group of a
-- queue, and stops, puts the group aside, or schedules it.
pub mod Invariant
pub mod Conserved
pub mod OnFly
use mo_link.Prelude.{
  ℕ, suc, ◌+◌, String, elem, Bool, true, false, ◌≡◌, refl, Option, none, some, List, [], ◌∷◌, ◌++◌,
  map, Result, ok, raise, assertion_error, Exn, if◌then◌else◌,
}
use mo_link.Scheduler.{Vllm, add_id, extendleft}

pub data Decision (v : Vllm) : Type 0 where
  stop : v.Mem → Decision v
  -- scheduled by another batch, so put aside in `reserve_queue`
  on_fly : v.Mem → Decision v
  postpone : v.Mem → Decision v
  discard : v.Mem → Decision v
  -- as a prefill or not, with the chunk's size, the number of uncached tokens and the LoRAs then in
  -- use
  schedule : Bool → ℕ → ℕ → Option (List ℕ) → v.Mem → Decision v
  failed_assertion : Decision v

-- A `ScheduledSequenceGroup`, and whether it stands among the prefills.
pub record Scheduled (v : Vllm) : Type 0 where
  pub seq_group : v.Group
  pub token_chunk_size : ℕ
  pub is_prefill : Bool

pub record Sweep (v : Vllm) : Type 0 where
  pub mem : v.Mem
  pub requests_on_fly : List String
  pub curr_loras : Option (List ℕ)
  pub reserve_queue : List v.Group
  pub leftover : List v.Group
  pub ignored : List v.Group
  pub seq_groups : List (Scheduled v)
  pub num_scheduled : ℕ
  pub num_tokens : ℕ

module _ {v : Vllm} where
  unfoldable pub begin : v.Mem → List String → Option (List ℕ) → Sweep v
  begin mem ids loras = record {
    mem = mem;
    requests_on_fly = ids;
    curr_loras = loras;
    reserve_queue = [];
    leftover = [];
    ignored = [];
    seq_groups = [];
    num_scheduled = 0;
    num_tokens = 0;
  }

  abbrev pub scheduled : v.Group → ℕ → Bool → Scheduled v
  scheduled g chunk prefill = record {
    seq_group = g;
    token_chunk_size = chunk;
    is_prefill = prefill;
  }

  -- What becomes of the group, and whether the loop goes on.
  unfoldable pub apply_decision : Decision v → Sweep v → v.Group → Result (Bool × Sweep v)
  apply_decision (stop m) s g = ok (false, record s { mem = m })
  apply_decision (on_fly m) s g =
      ok (true, record s { mem = m; reserve_queue = s.reserve_queue ++ g ∷ [] })
  apply_decision (postpone m) s g = ok (true, record s { mem = m; leftover = g ∷ s.leftover })
  apply_decision (discard m) s g = ok (true, record s { mem = m; ignored = s.ignored ++ g ∷ [] })
  apply_decision (schedule prefill chunk tokens loras m) s g = ok (
    true,
    record s {
      mem = m;
      requests_on_fly = add_id (v.request_id g) s.requests_on_fly;
      curr_loras = loras;
      seq_groups = s.seq_groups ++ scheduled g chunk prefill ∷ [];
      num_scheduled = suc s.num_scheduled;
      num_tokens = s.num_tokens + tokens;
    },
  )
  apply_decision failed_assertion s g = raise assertion_error

  -- `leave` is what the loop's condition does where the queue is empty.
  unfoldable pub sweep :
      (Sweep v → v.Group → Decision v)
      → (v.Mem → v.Mem)
      → List v.Group
      → Sweep v
      → Result (Sweep v × List v.Group)
  unfolding apply_decision
  sweep decide leave [] s = ok (record s { mem = leave s.mem }, [])
  sweep decide leave (g ∷ gs) s = elim (apply_decision (decide s g) s g) [
    | raise e ↦ raise e
    | ok (false, s') ↦ ok (s', g ∷ gs)
    | ok (true, s') ↦ sweep decide leave gs s'
  ]

  -- The queue at the end: what was left, with `reserve_queue` and the postponed groups before it.
  unfoldable pub put_back : Sweep v → List v.Group → List v.Group
  put_back s rest = extendleft (s.reserve_queue ++ rest) s.leftover
