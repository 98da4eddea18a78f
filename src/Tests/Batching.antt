-- ===== src/Tests/Batching.antt =====
-- Micro batches for five requests, with whole numbers in place of floats, and the loop's first round.
use mo_link.Prelude.{
  ℕ, ◌+◌, ◌-◌, ◌*◌, ◌/◌, leb, Bool, true, false, ◌≡◌, refl, some, [], ◌∷◌, ok, arith, eqb, sorted,
  insert_sorted,
}
use mo_link.Engine.Latency.{
  Floats, decode_profile, culculate_compute_latency, culculate_transmission_latency, count_from,
  get_latency, neighbours, between, interpolate,
}
use mo_link.Engine.Latency.Profiled.{expected, compute_latency_lem}
use mo_link.Engine.Batches.{
  Engine, with_limit, culculate_batch_num_default, try_batches, fills, with_estimate,
}
use mo_link.Engine.Loop.{
  BatchNumbers, Loop, first_loop, loop_round, any_of, wake, grow, poll_from, poll, restart,
}
use mo_link.Engine.Loop.Running.{IsRunning}
use mo_link.Engine.Loop.Rounds.{one, run_engine_loop-IsRunning}
use mo_link.Engine.Loop.Restarts.{StartsIn, loop_round-StartsIn}
use mo_link.Engine.Ready.{default_numbers}
use mo_link.Tests.Scheduling.{small, scheduler}

abbrev whole : Floats
whole = record {
  F = ℕ;
  of_ℕ = λ n. n;
  add = λ x y. x + y;
  sub = λ x y. x - y;
  mul = λ x y. x * y;
  div = λ x y. x / y;
  le = leb;
}

-- In ms.
abbrev measured : ℕ → ℕ
measured n = 10 + n

compute_latency_lem_example :
    culculate_compute_latency whole (decode_profile whole measured 4) 3
    ≡ ok (some (expected whole measured 4 3))
compute_latency_lem_example = compute_latency_lem whole measured 4 3 (omega arith)

-- A batch of 5 is expected to take as long as one request.
beyond_the_table :
    culculate_compute_latency whole (decode_profile whole measured 4) 5 ≡ ok (some 11)
unfolding culculate_compute_latency decode_profile count_from get_latency neighbours between sorted
    insert_sorted
beyond_the_table = refl

abbrev engine : Engine small whole
engine = record {
  scheduler = scheduler;
  max_batch_num = 10;
  decode_table = decode_profile whole measured 4;
  model_type_size = 16;
  model_hidden_size = 4096;
}

abbrev numbers : BatchNumbers
numbers = default_numbers small whole measured 4 10 (omega arith) (omega arith)

-- Three batches of at most two requests each.
abbrev after_first : Loop numbers
after_first = record {
  has_requests_in_progress = true ∷ true ∷ true ∷ [];
  requests_in_progress = 0 ∷ 1 ∷ 2 ∷ [];
  batch_num = 3;
  engine = with_limit engine 2;
  started = 0 ∷ 1 ∷ 2 ∷ [];
}

first_round : loop_round numbers (λ i. false) (first_loop numbers 1 engine) ≡ ok after_first
unfolding loop_round first_loop any_of wake grow poll_from poll restart culculate_batch_num_default
    try_batches fills with_estimate with_limit culculate_compute_latency decode_profile count_from
    get_latency neighbours between interpolate culculate_transmission_latency sorted insert_sorted
first_round = refl

run_engine_loop-IsRunning_example :
    IsRunning numbers after_first
    × (any_of after_first.has_requests_in_progress ≡ true)
    × ((engine' : Engine small whole) (done : ℕ → Bool)
        → numbers.IsReady engine'
        → (l : Loop numbers) × (loop_round numbers done (record after_first { engine = engine' })
            ≡ ok l))
run_engine_loop-IsRunning_example =
    run_engine_loop-IsRunning numbers 1 engine after_first (refl, refl)
      (one (λ i. false) first_round)

-- The step of context 1 is done.
loop_round-StartsIn_example :
    (l : Loop numbers) × (loop_round numbers (λ i. eqb i 1) after_first ≡ ok l)
    × ((i : ℕ) → StartsIn numbers (λ i. eqb i 1) after_first l i)
loop_round-StartsIn_example =
    loop_round-StartsIn numbers (λ i. eqb i 1) after_first
      (run_engine_loop-IsRunning numbers 1 engine after_first (refl, refl)
        (one (λ i. false) first_round)).0
