-- ===== src/Tests/Platforms.antt =====
-- A small platform on which the theorems about the v1 engine are applied: tensors, batches and
-- replies are numbers, and the bytes remember what they were made from.
use mo_link.Prelude.{
  ℕ, suc, pos, ◌+◌, refl, Option, none, some, map, Result, ok, raise, unpickling_error, type_error,
  Dict, [], ◌∷◌,
}
use mo_link.Topology.{Metadata}
use mo_link.Platform.{Platform, RoundTrips, Output, intermediate, holder, reply}

pub data Wire : Type 0 where
  a_batch : ℕ → Wire
  an_output : Output ℕ ℕ → Wire
  a_json : Output ℕ ℕ → Wire
  a_tensor : ℕ → Wire
  some_metadata : Metadata → Wire

abbrev load_batch : Wire → Result ℕ
load_batch (a_batch b) = ok b
load_batch _ = raise unpickling_error

abbrev pub load_output : Wire → Result (Output ℕ ℕ)
load_output (an_output o) = ok o
load_output _ = raise unpickling_error

abbrev load_tensor : Wire → Result ℕ
load_tensor (a_tensor t) = ok t
load_tensor _ = raise unpickling_error

abbrev load_metadata : Wire → Result Metadata
load_metadata (some_metadata m) = ok m
load_metadata _ = raise unpickling_error

-- Tensors cannot be written as JSON.
abbrev json_output : Output ℕ ℕ → Result Wire
json_output (intermediate d) = raise type_error
json_output (holder d) = raise type_error
json_output o = ok (a_json o)

-- The first stage makes a tensor of its batch, a later one adds its runner's number.
abbrev run_model : ℕ → ℕ → Option (Dict ℕ) → Result (Output ℕ ℕ) × ℕ
run_model runner batch none = (ok (intermediate (("hidden_states", batch) ∷ [])), runner)
run_model runner batch (some d) = (ok (intermediate (map (λ e. (e.0, e.1 + runner)) d)), suc runner)

abbrev pub small : Platform
small = record {
  Batch = ℕ;
  Tensor = ℕ;
  Reply = ℕ;
  Bytes = Wire;
  Runner = ℕ;
  num_tokens = λ b. b;
  virtual_engine = λ b. pos 0;
  empty_reply = 0;
  dump_batch = a_batch;
  load_batch = load_batch;
  dump_output = an_output;
  load_output = load_output;
  json_output = json_output;
  to_cpu = λ t. t;
  save = a_tensor;
  load = load_tensor;
  dump_metadata = some_metadata;
  load_metadata = load_metadata;
  run_model = run_model;
  sample_tokens = λ runner. (ok (reply runner), runner);
}

pub small-RoundTrips : RoundTrips small
small-RoundTrips = record {
  batch = λ b. refl;
  output = λ o. refl;
  tensors = λ t. refl;
  metadata = λ m. refl;
}
