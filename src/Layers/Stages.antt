-- ===== src/Layers/Stages.antt =====
-- The forward passes of the nodes, one after the other, against that of a single node.
use mo_link.Prelude.{
  ℕ, zero, suc, ◌+◌, ◌-◌, ◌≤◌, ◌<◌, true, false, eqb, is_in, take, drop, replicate, ◌≡◌, refl, sym,
  ap, ◌∙◌, Option, none, some, List, [], ◌∷◌, ◌++◌, map, Result, ok, raise, assertion_error, ◌>>=◌,
  arith,
}
use mo_link.Engine.Latency.{count_from}
use mo_link.Layers.{
  ServingLayers, serving_layers_of, is_first_rank, is_last_rank, Module, missing, layer,
  make_layers, slice, Model, Output, State, intermediate, hidden, hidden_with_aux, call_layer,
  add_aux, run_layers, begin_forward, end_forward, forward,
}

drop-replicate : {A : Type 0} (n : ℕ) (x : A) (ys : List A) → drop n (replicate n x ++ ys) ≡ ys
drop-replicate zero x ys = refl
drop-replicate (suc n) x ys = drop-replicate n x ys

take-layers :
    (n start : ℕ) (ys : List Module)
    → take n (map (λ idx. layer idx) (count_from start n) ++ ys)
      ≡ map (λ idx. layer idx) (count_from start n)
unfolding count_from
take-layers zero start ys = refl
take-layers (suc n) start ys = ap (◌∷◌ (layer start)) (take-layers n (suc start) ys)

-- What a node runs are the layers that it serves.
pub slice-make_layers :
    (n : ℕ) (s : ServingLayers)
    → slice (make_layers n s) s.first (s.last + 1)
      ≡ map (λ idx. layer idx) (count_from s.first (s.last + 1 - s.first))
unfolding make_layers
slice-make_layers n s =
    rw
      (drop-replicate s.first missing (
        map (λ idx. layer idx) (count_from s.first (s.last + 1 - s.first))
        ++ replicate (n - (s.last + 1)) missing))
      (take-layers (s.last + 1 - s.first) s.first (replicate (n - (s.last + 1)) missing))

-- The ranges, in order, are the layers from `low` to below `n`.
abbrev pub IsPartition : ℕ → ℕ → List ServingLayers → Type 0
IsPartition low n [] = ⊥
IsPartition low n (s ∷ []) = (s.first ≡ low) × (s.first ≤ s.last) × (s.last + 1 ≡ n)
IsPartition low n (s ∷ t ∷ rest) =
    (s.first ≡ low) × (s.first ≤ s.last) × (s.last + 1 < n) × IsPartition (s.last + 1) n (t ∷ rest)

module _ (m : Model) where
  -- Each node hands its tensors on to the next.
  unfoldable pub run_stages :
      List ServingLayers
      → m.Positions
      → m.Input
      → Option m.Tensor
      → Option (m.Tensor × Option m.Tensor)
      → Result (Output m)
  run_stages [] positions input inputs_embeds tensors = raise assertion_error
  run_stages (s ∷ []) positions input inputs_embeds tensors =
      forward m s positions input inputs_embeds tensors
  run_stages (s ∷ t ∷ rest) positions input inputs_embeds tensors =
      forward m s positions input inputs_embeds tensors >>= λ output. elim output [
        | intermediate h residual ↦
            run_stages (t ∷ rest) positions input inputs_embeds (some (h, residual))
        | hidden h ↦ ok (hidden h)
        | hidden_with_aux h aux ↦ ok (hidden_with_aux h aux)
      ]

  -- The layers from `start` on, `n` of them.
  compute : m.Positions → ℕ → ℕ → m.Tensor × Option m.Tensor → m.Tensor × Option m.Tensor
  compute positions start zero x = x
  compute positions start (suc n) x =
      let r = m.run_layer start positions x.0 x.1 in compute positions (suc start) n (r.0, some r.1)

  compute-add :
      (positions : m.Positions) (start a b : ℕ) (x : m.Tensor × Option m.Tensor)
      → compute positions start (a + b) x
        ≡ compute positions (start + a) b (compute positions start a x)
  unfolding compute
  compute-add positions start zero b x =
      let e : 0 + b ≡ b = omega arith in let f : start + 0 ≡ start = omega arith in rw (e, f)
  compute-add positions start (suc a) b x =
      let e : suc a + b ≡ suc (a + b) = omega arith in
      let f : start + suc a ≡ suc start + a = omega arith in
      let r = m.run_layer start positions x.0 x.1 in
      rw (e, f) (compute-add positions (suc start) a b (r.0, some r.1))

  abbrev state_of : m.Tensor × Option m.Tensor → State m
  state_of x = record { hidden_states = x.0; residual = x.1; aux_hidden_states = [] }

  module _ (no_aux : m.aux_hidden_state_layers ≡ []) where
    unwanted : (i : ℕ) → is_in i m.aux_hidden_state_layers ≡ false
    unwanted i = ap (is_in i) no_aux

    nothing_added :
        (i : ℕ) (h : m.Tensor) (residual : Option m.Tensor)
        → add_aux m (is_in i m.aux_hidden_state_layers) h residual [] ≡ ok []
    unfolding add_aux
    nothing_added i h none = rw (unwanted i)
    nothing_added i h (some r) = rw (unwanted i)

    run_layers-compute :
        (positions : m.Positions) (idx start n : ℕ) (x : m.Tensor × Option m.Tensor)
        → run_layers m positions idx (map (λ i. layer i) (count_from start n)) (state_of x)
          ≡ ok (state_of (compute positions start n x))
    unfolding run_layers call_layer compute count_from
    run_layers-compute positions idx start zero x = refl
    run_layers-compute positions idx start (suc n) x =
        let r = m.run_layer start positions x.0 x.1 in
        rw (nothing_added idx x.0 x.1)
          (run_layers-compute positions (suc idx) (suc start) n (r.0, some r.1))

    -- A node whose pass begins in the state `x`.
    forward-compute :
        (s : ServingLayers) (positions : m.Positions) (input : m.Input)
        (inputs_embeds : Option m.Tensor) (tensors : Option (m.Tensor × Option m.Tensor))
        (x : m.Tensor × Option m.Tensor)
        → begin_forward m (is_first_rank s) input inputs_embeds tensors ≡ ok (state_of x)
        → forward m s positions input inputs_embeds tensors
          ≡ ok (
              end_forward m
                (is_last_rank m.num_hidden_layers s)
                (state_of (compute positions s.first (s.last + 1 - s.first) x)))
    unfolding forward
    forward-compute s positions input inputs_embeds tensors x begun = rw (
      begun,
      slice-make_layers m.num_hidden_layers s,
      run_layers-compute positions 0 s.first (s.last + 1 - s.first) x,
    )

    handed_on :
        (last : ℕ) (input : m.Input) (inputs_embeds : Option m.Tensor)
        (y : m.Tensor × Option m.Tensor)
        → begin_forward m (eqb (last + 1) 0) input inputs_embeds (some (y.0, y.1)) ≡ ok (state_of y)
    unfolding begin_forward
    handed_on last input inputs_embeds y =
        let later : eqb (last + 1) 0 ≡ false = ground arith in rw later

    run_stages-compute :
        (ranges : List ServingLayers) (low : ℕ) (positions : m.Positions) (input : m.Input)
        (inputs_embeds : Option m.Tensor) (tensors : Option (m.Tensor × Option m.Tensor))
        (x : m.Tensor × Option m.Tensor)
        → IsPartition low m.num_hidden_layers ranges
        → begin_forward m (eqb low 0) input inputs_embeds tensors ≡ ok (state_of x)
        → (let y = compute positions low (m.num_hidden_layers - low) x in
            run_stages ranges positions input inputs_embeds tensors ≡ ok (hidden (m.norm y.0 y.1)))
    unfolding run_stages end_forward
    run_stages-compute [] low positions input inputs_embeds tensors x h begun = absurd h
    run_stages-compute (s ∷ []) low positions input inputs_embeds tensors x (first, some_layer, end)
          begun =
        let last : eqb s.last (m.num_hidden_layers - 1) ≡ true = ground (arith, end) in
        let begun' : begin_forward m (is_first_rank s) input inputs_embeds tensors
            ≡ ok (state_of x) =
          rw first begun in
        let count : s.last + 1 - s.first ≡ m.num_hidden_layers - low = omega (arith, first, end) in
        rw (forward-compute s positions input inputs_embeds tensors x begun', last, count, first)
    run_stages-compute (s ∷ t ∷ rest) low positions input inputs_embeds tensors x
          (first, some_layer, more, others) begun =
        let n = s.last + 1 - s.first in
        let y = compute positions s.first n x in
        let after = m.num_hidden_layers - (s.last + 1) in
        let size : m.num_hidden_layers - s.first ≡ n + after =
          omega (arith, first, some_layer, more) in
        let start : s.first + n ≡ s.last + 1 = omega (arith, some_layer) in
        let joined : compute positions low (m.num_hidden_layers - low) x
            ≡ compute positions (s.last + 1) after y =
          rw (sym first, size) (rw start at (compute-add positions s.first n after x)) in
        let not_last : eqb s.last (m.num_hidden_layers - 1) ≡ false = ground (arith, more) in
        let begun' : begin_forward m (is_first_rank s) input inputs_embeds tensors
            ≡ ok (state_of x) =
          rw first begun in
        rw (forward-compute s positions input inputs_embeds tensors x begun', not_last, joined)
          (run_stages-compute (t ∷ rest) (s.last + 1) positions input inputs_embeds
            (some (y.0, y.1)) y others (handed_on s.last input inputs_embeds y))

    -- Where the nodes' ranges of layers follow one another from the first layer to the last, and no
    -- auxiliary hidden states are wanted, the forward passes of the nodes, each on the tensors of the
    -- one before, give what a single node gives that serves every layer.
    pub run_stages-eq-forward :
        (ranges : List ServingLayers) (positions : m.Positions) (input : m.Input)
        (inputs_embeds : Option m.Tensor)
        → 1 ≤ m.num_hidden_layers
        → IsPartition 0 m.num_hidden_layers ranges
        → run_stages ranges positions input inputs_embeds none
          ≡ forward m
              (serving_layers_of m.num_hidden_layers none)
              positions
              input
              inputs_embeds
              none
    unfolding run_stages begin_forward serving_layers_of
    run_stages-eq-forward ranges positions input inputs_embeds some_layer h =
        let x : m.Tensor × Option m.Tensor =
          (elim inputs_embeds [ some e ↦ e | none ↦ m.embed_tokens input ], none) in
        let whole = serving_layers_of m.num_hidden_layers none in
        run_stages-compute ranges 0 positions input inputs_embeds none x h refl
        ∙ sym (
            run_stages-compute (whole ∷ []) 0 positions input inputs_embeds none x
              (refl, omega arith, omega arith) refl)
