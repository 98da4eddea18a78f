-- ===== src/Tests/Splitting.antt =====
-- A model of four layers on two nodes. A tensor is the list of what has been done to it.
use mo_link.Prelude.{ℕ, ◌≡◌, refl, none, List, [], ◌∷◌, ◌++◌, ok, raise, type_error, arith}
use mo_link.Engine.Latency.{count_from}
use mo_link.Layers.{
  ServingLayers, serving_layers_of, Model, hidden, forward, make_layers, run_layers, begin_forward,
  end_forward, call_layer, add_aux,
}
use mo_link.Layers.Stages.{run_stages, run_stages-eq-forward}

abbrev four : Model
four = record {
  Tensor = List ℕ;
  Input = ℕ;
  Positions = Unit {0};
  num_hidden_layers = 4;
  embed_tokens = λ n. n ∷ [];
  run_layer = λ i p h r. (h ++ i ∷ [], h);
  run_missing = λ p h r. raise type_error;
  norm = λ h r. h;
  add = λ h r. h ++ r;
  aux_hidden_state_layers = [];
}

abbrev halves : List ServingLayers
halves = record { first = 0; last = 1 } ∷ record { first = 2; last = 3 } ∷ []

run_stages-eq-forward_example :
    run_stages four halves tt 7 none none ≡ forward four (serving_layers_of 4 none) tt 7 none none
run_stages-eq-forward_example =
    run_stages-eq-forward four refl halves tt 7 none (omega arith)
      (refl, omega arith, omega arith, (refl, omega arith, refl))

-- The two nodes together run the four layers in order.
layers_are : run_stages four halves tt 7 none none ≡ ok (hidden (7 ∷ 0 ∷ 1 ∷ 2 ∷ 3 ∷ []))
unfolding run_stages forward make_layers run_layers begin_forward end_forward call_layer add_aux
    count_from
layers_are = refl
