-- ===== src/Layers.antt =====
-- The layers of a model on the nodes of the v0 engine: the serving layers of molink/engine/
-- molink_engine.py, `make_layers` of molink/model_executor/models/utils.py, and the forward pass of
-- `LlamaModel` in molink/model_executor/models/llama.py. Tensors and what a layer computes are
-- parameters. Layers are counted by natural numbers.
pub mod Once
pub mod Stages
use mo_link.Prelude.{
  ℕ, suc, ◌+◌, ◌-◌, Bool, eqb, is_in, take, drop, replicate, Option, none, some, List, [], ◌∷◌,
  ◌++◌, map, Result, ok, raise, type_error, assertion_error, ◌>>=◌, if◌then◌else◌,
}
use mo_link.Engine.Latency.{count_from}

-- Both ends belong to it.
pub record ServingLayers : Type 0 where
  pub first : ℕ
  pub last : ℕ

-- The two numbers of the argument, if it is not empty.
unfoldable pub serving_layers_of : ℕ → Option (ℕ × ℕ) → ServingLayers
serving_layers_of num_all_layers none = record { first = 0; last = num_all_layers - 1 }
serving_layers_of num_all_layers (some (start, end)) = record { first = start; last = end }

abbrev pub is_first_rank : ServingLayers → Bool
is_first_rank s = eqb s.first 0

abbrev pub is_last_rank : ℕ → ServingLayers → Bool
is_last_rank num_all_layers s = eqb s.last (num_all_layers - 1)

abbrev pub get_pp_indices : ServingLayers → ℕ × ℕ
get_pp_indices s = (s.first, s.last + 1)

pub data Module : Type 0 where
  missing : Module
  layer : ℕ → Module

unfoldable pub make_layers : ℕ → ServingLayers → List Module
unfolding count_from
make_layers num_hidden_layers s =
    let (start_layer, end_layer) = get_pp_indices s in
    replicate start_layer missing
    ++ (map (λ idx. layer idx) (count_from start_layer (end_layer - start_layer))
        ++ replicate (num_hidden_layers - end_layer) missing)

-- modules[start:end]
abbrev pub slice {ℓ} : {A : Type ℓ} → List A → ℕ → ℕ → List A
slice modules start end = take (end - start) (drop start modules)

pub record Model : Type 1 where
  pub Tensor : Type 0
  pub Input : Type 0
  pub Positions : Type 0
  pub num_hidden_layers : ℕ
  pub embed_tokens : Input → Tensor
  pub run_layer : ℕ → Positions → Tensor → Option Tensor → Tensor × Tensor
  -- vLLM's PPMissingLayer
  pub run_missing : Positions → Tensor → Option Tensor → Result (Tensor × Tensor)
  pub norm : Tensor → Option Tensor → Tensor
  pub add : Tensor → Tensor → Tensor
  pub aux_hidden_state_layers : List ℕ

module _ (m : Model) where
  pub data Output : Type 0 where
    intermediate : m.Tensor → Option m.Tensor → Output
    hidden : m.Tensor → Output
    hidden_with_aux : m.Tensor → List m.Tensor → Output

  unfoldable pub call_layer :
      Module → m.Positions → m.Tensor → Option m.Tensor → Result (m.Tensor × m.Tensor)
  call_layer missing positions h residual = m.run_missing positions h residual
  call_layer (layer idx) positions h residual = ok (m.run_layer idx positions h residual)

  -- Without a residual there is nothing to add.
  unfoldable pub add_aux :
      Bool → m.Tensor → Option m.Tensor → List m.Tensor → Result (List m.Tensor)
  add_aux wanted h none aux = if wanted then raise type_error else ok aux
  add_aux wanted h (some residual) aux = ok (if wanted then aux ++ m.add h residual ∷ [] else aux)

  pub record State : Type 0 where
    pub hidden_states : m.Tensor
    pub residual : Option m.Tensor
    pub aux_hidden_states : List m.Tensor

  unfoldable pub run_layers : m.Positions → ℕ → List Module → State → Result State
  unfolding call_layer add_aux
  run_layers positions idx [] s = ok s
  run_layers positions idx (l ∷ layers) s =
      add_aux (is_in idx m.aux_hidden_state_layers) s.hidden_states s.residual s.aux_hidden_states
      >>= λ aux. call_layer l positions s.hidden_states s.residual >>= λ r.
          run_layers positions (suc idx) layers
            (record { hidden_states = r.0; residual = some r.1; aux_hidden_states = aux })

  unfoldable pub begin_forward :
      Bool → m.Input → Option m.Tensor → Option (m.Tensor × Option m.Tensor) → Result State
  begin_forward first input inputs_embeds tensors =
      if first
      then ok (record {
        hidden_states = elim inputs_embeds [ some h ↦ h | none ↦ m.embed_tokens input ];
        residual = none;
        aux_hidden_states = [];
      })
      else elim tensors [
        | none ↦ raise assertion_error
        | some (h, residual) ↦
            ok (record { hidden_states = h; residual = residual; aux_hidden_states = [] })
      ]

  unfoldable pub end_forward : Bool → State → Output
  end_forward last s =
      if last
      then elim s.aux_hidden_states [
        | [] ↦ hidden (m.norm s.hidden_states s.residual)
        | _ ↦ hidden_with_aux (m.norm s.hidden_states s.residual) s.aux_hidden_states
      ]
      else intermediate s.hidden_states s.residual

  unfoldable pub forward :
      ServingLayers
      → m.Positions
      → m.Input
      → Option m.Tensor
      → Option (m.Tensor × Option m.Tensor)
      → Result Output
  unfolding make_layers run_layers begin_forward end_forward
  forward s positions input inputs_embeds tensors =
      begin_forward (is_first_rank s) input inputs_embeds tensors >>= λ state.
      run_layers positions 0
        (slice (make_layers m.num_hidden_layers s) (get_pp_indices s).0 (get_pp_indices s).1) state
      >>= λ state'. ok (end_forward (is_last_rank m.num_hidden_layers s) state')
