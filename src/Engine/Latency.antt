-- ===== src/Engine/Latency.antt =====
-- The latencies that the engine expects of a micro batch. A float and its operations are abstract.
pub mod Profiled
use mo_link.Prelude.{
  ℕ, zero, suc, ◌+◌, ◌-◌, ◌*◌, Bool, pos, sorted, leb, eqb, ◌&&◌, Option, none, some, List, [], ◌∷◌,
  map, Result, ok, raise, type_error, if◌then◌else◌,
}

pub record Floats : Type 1 where
  pub F : Type 0
  pub of_ℕ : ℕ → F
  pub add : F → F → F
  pub sub : F → F → F
  pub mul : F → F → F
  pub div : F → F → F
  pub le : F → F → Bool

-- range(start, start + n)
unfoldable pub count_from : ℕ → ℕ → List ℕ
count_from start zero = []
count_from start (suc n) = start ∷ count_from (suc start) n

-- dict.get
unfoldable pub get_latency {ℓ} : {A : Type ℓ} → ℕ → List (ℕ × A) → Option A
get_latency k [] = none
get_latency k ((j, a) ∷ table) = if eqb j k then some a else get_latency k table

-- The neighbours among the sorted keys, or 1 and 1.
unfoldable pub neighbours : ℕ → List ℕ → ℕ × ℕ
neighbours batch_size [] = (1, 1)
neighbours batch_size (k ∷ []) = (1, 1)
neighbours batch_size (k ∷ k' ∷ keys) =
    let rest = neighbours batch_size (k' ∷ keys) in
    if leb k batch_size && leb batch_size k' then (k, k') else rest

module _ (fl : Floats) where
  -- The decode table that the profile run fills: one measured latency for each batch size.
  unfoldable pub decode_profile : (ℕ → fl.F) → ℕ → List (ℕ × fl.F)
  unfolding count_from
  decode_profile measured sizes = map (λ n. (n, measured n)) (count_from 1 sizes)

  unfoldable pub interpolate : ℕ → ℕ → ℕ → fl.F → fl.F → fl.F
  interpolate batch_size left right left_latency right_latency = fl.add left_latency (
      fl.mul (fl.sub right_latency left_latency)
        (fl.div (fl.of_ℕ (batch_size - left)) (fl.of_ℕ (right - left))))

  -- A missing latency is None, with which Python does not calculate.
  unfoldable pub between : ℕ → ℕ → ℕ → Option fl.F → Option fl.F → Result (Option fl.F)
  unfolding interpolate
  between batch_size left right (some l) (some r) =
      ok (some (interpolate batch_size left right l r))
  between batch_size left right _ _ = raise type_error

  unfoldable pub culculate_compute_latency : List (ℕ × fl.F) → ℕ → Result (Option fl.F)
  unfolding get_latency neighbours between
  culculate_compute_latency table batch_size =
      let (left, right) = neighbours batch_size (sorted (λ n. pos n) (map (λ e. e.0) table)) in
      if eqb batch_size 1
      then ok (get_latency 1 table)
      else if eqb left right
      then ok (get_latency left table)
      else between batch_size left right (get_latency left table) (get_latency right table)

  -- At 1000 Mbps and 5 ms.
  unfoldable pub culculate_transmission_latency : ℕ → ℕ → ℕ → ℕ → fl.F
  culculate_transmission_latency model_type_size model_hidden_size num_batched_token batch_size =
      fl.add
        (fl.mul
          (fl.div (fl.of_ℕ (model_type_size * model_hidden_size * num_batched_token * batch_size))
            (fl.of_ℕ (1000 * 1000000)))
          (fl.of_ℕ 1000))
        (fl.of_ℕ 5)
