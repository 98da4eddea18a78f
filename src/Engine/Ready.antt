-- ===== src/Engine/Ready.antt =====
-- The engine as the loop knows it: by default with the table of the profile run, and with chunked
-- prefill, where the number of batches is always 2.
use mo_link.Prelude.{ℕ, ◌+◌, ◌≤◌, ◌/◌, leb, Bool, true, false, ◌≡◌, refl, ok, arith, if◌then◌else◌}
use mo_link.Scheduler.{Vllm}
use mo_link.Engine.Latency.{Floats, decode_profile}
use mo_link.Engine.Batches.{
  Engine, num_requests, with_limit, culculate_batch_num_default,
  culculate_batch_num_chunked_prefill,
}
use mo_link.Engine.Batches.Suffices.{culculate_batch_num_default-Suffices}
use mo_link.Engine.Loop.{BatchNumbers}

module _ (v : Vllm) (fl : Floats) where
  -- The table is full, and there are as many contexts as batches are allowed.
  abbrev pub IsProfiled : (ℕ → fl.F) → ℕ → ℕ → Engine v fl → Type 0
  IsProfiled measured sizes contexts e =
      (e.decode_table ≡ decode_profile fl measured sizes) × (e.max_batch_num ≡ contexts)

  kept :
      (measured : ℕ → fl.F) (sizes contexts limit : ℕ) (few : Bool) (e : Engine v fl)
      → IsProfiled measured sizes contexts e
      → IsProfiled measured sizes contexts (if few then e else with_limit e limit)
  unfolding with_limit
  kept measured sizes contexts limit true e h = h
  kept measured sizes contexts limit false e h = h

  pub default_bounds :
      (measured : ℕ → fl.F) (sizes contexts : ℕ)
      → 1 ≤ sizes
      → 3 ≤ contexts
      → (e : Engine v fl) → IsProfiled measured sizes contexts e
      → (b : ℕ) × (e' : Engine v fl) × (culculate_batch_num_default e ≡ ok (b, e'))
        × (1 ≤ b)
        × (b ≤ contexts)
        × IsProfiled measured sizes contexts e'
  default_bounds measured sizes contexts some_size allowed e h =
      let (b, found, low, high, fits) =
        culculate_batch_num_default-Suffices measured sizes e some_size h.0 (omega (arith, h.1)) in
      let few = leb (num_requests e) 2 in
      (
        b,
        if few then e else with_limit e (num_requests e / b + 1),
        found,
        low,
        omega (arith, high, h.1),
        kept measured sizes contexts (num_requests e / b + 1) few e h,
      )

  abbrev pub default_numbers :
      (measured : ℕ → fl.F) (sizes contexts : ℕ) → 1 ≤ sizes → 3 ≤ contexts → BatchNumbers
  default_numbers measured sizes contexts some_size allowed = record {
    State = Engine v fl;
    contexts = contexts;
    next_batch_num = culculate_batch_num_default;
    IsReady = IsProfiled measured sizes contexts;
    ready_bounds = default_bounds measured sizes contexts some_size allowed;
  }

  pub chunked_bounds :
      (is_decode : v.Group → Bool) (contexts : ℕ)
      → 2 ≤ contexts
      → (e : Engine v fl) → Unit {0}
      → (b : ℕ) × (e' : Engine v fl) × (ok (culculate_batch_num_chunked_prefill is_decode e)
          ≡ ok (b, e'))
        × (1 ≤ b)
        × (b ≤ contexts)
        × Unit {0}
  unfolding culculate_batch_num_chunked_prefill
  chunked_bounds is_decode contexts allowed e h =
      (2, (culculate_batch_num_chunked_prefill is_decode e).1, refl, omega arith, allowed, tt)

  abbrev pub chunked_numbers :
      (is_decode : v.Group → Bool) (contexts : ℕ) → 2 ≤ contexts → BatchNumbers
  chunked_numbers is_decode contexts allowed = record {
    State = Engine v fl;
    contexts = contexts;
    next_batch_num = λ e. ok (culculate_batch_num_chunked_prefill is_decode e);
    IsReady = λ e. Unit {0};
    ready_bounds = chunked_bounds is_decode contexts allowed;
  }
