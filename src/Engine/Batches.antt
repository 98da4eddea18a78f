-- ===== src/Engine/Batches.antt =====
-- The number of micro batches, which also sets the limit of each. Numbers of requests are far below
-- 2 ^ 53, so that int() of a quotient of floats is the quotient of the integers.
pub mod Suffices
use mo_link.Prelude.{
  ℕ, zero, suc, ◌+◌, ◌-◌, ◌/◌, length, leb, Option, none, some, List, [], ◌∷◌, Bool, Result, ok,
  raise, type_error, if◌then◌else◌,
}
use mo_link.Scheduler.{Vllm, Scheduler, set_schedule_limit, set_schedule_limit_chunked_prefill}
use mo_link.Engine.Latency.{Floats, culculate_compute_latency, culculate_transmission_latency}

pub record Engine (v : Vllm) (fl : Floats) : Type 0 where
  -- self.engine.scheduler[0], the only one that is used
  pub scheduler : Scheduler v
  pub max_batch_num : ℕ
  pub decode_table : List (ℕ × fl.F)
  pub model_type_size : ℕ
  pub model_hidden_size : ℕ

unfoldable pub count_if {ℓ} : {A : Type ℓ} → (A → Bool) → List A → ℕ
count_if p [] = 0
count_if p (x ∷ xs) = (if p x then 1 else 0) + count_if p xs

-- An estimate that fails, or is None, to which the overhead is added.
unfoldable pub with_estimate {ℓ κ} :
    {F : Type κ} {A : Type ℓ} → Result (Option F) → (F → Result A) → Result A
with_estimate (raise x) next = raise x
with_estimate (ok none) next = raise type_error
with_estimate (ok (some latency)) next = next latency

module _ {v : Vllm} {fl : Floats} where
  abbrev pub num_requests : Engine v fl → ℕ
  num_requests e = length e.scheduler.waiting + length e.scheduler.running

  unfoldable pub with_limit : Engine v fl → ℕ → Engine v fl
  unfolding set_schedule_limit
  with_limit e limit = record e { scheduler = set_schedule_limit e.scheduler limit }

  -- The pipeline is busy while a batch travels: the time that the batches beyond two take to
  -- compute covers the two transfers.
  unfoldable pub fills : Engine v fl → ℕ → ℕ → fl.F → Bool
  fills e batch_num batch_size latency =
      fl.le
        (fl.mul (fl.of_ℕ 2)
          (culculate_transmission_latency fl e.model_type_size e.model_hidden_size 1 batch_size))
        (fl.mul (fl.of_ℕ (batch_num - 2)) (fl.add latency (fl.of_ℕ 5)))

  -- for batch_num in range(base_batch_num + 1, max_batch_num + 1), with the rounds left
  unfoldable pub try_batches : ℕ → ℕ → ℕ → Engine v fl → Result (ℕ × Engine v fl)
  unfolding fills with_estimate with_limit
  try_batches n zero batch_num e = ok (e.max_batch_num, e)
  try_batches n (suc rounds) batch_num e =
      let e' = with_limit e (n / batch_num + 1) in
      with_estimate (culculate_compute_latency fl e.decode_table (n / batch_num)) (λ latency.
        let rest = try_batches n rounds (suc batch_num) e' in
        if fills e batch_num (n / batch_num) latency then ok (batch_num, e') else rest)

  unfoldable pub culculate_batch_num_default : Engine v fl → Result (ℕ × Engine v fl)
  unfolding try_batches
  culculate_batch_num_default e =
      let n = num_requests e in
      if leb n 1
      then ok (1, e)
      else if leb n 2
      then ok (2, e)
      else try_batches n (e.max_batch_num - 2) 3 e

  -- The limit n / 2 + 1 is compared with integers only, so it stands rounded up.
  unfoldable pub culculate_batch_num_chunked_prefill :
      (v.Group → Bool) → Engine v fl → ℕ × Engine v fl
  unfolding count_if set_schedule_limit_chunked_prefill
  culculate_batch_num_chunked_prefill is_decode e =
      let num_decode_requests = count_if is_decode e.scheduler.running in
      (
        2,
        record e {
          scheduler =
              set_schedule_limit_chunked_prefill e.scheduler ((num_decode_requests + 1) / 2 + 1)
                e.scheduler.max_num_batched_tokens;
        },
      )
