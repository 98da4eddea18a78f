-- ===== src/Decoding/Requests.antt =====
-- `decoding_execute_model_req`: the batch that a server gets.  The numbers in array('l') have no bound here.
use mo_link.Prelude.{
  ℕ, ℤ, pos, String, ◌==◌, eqb, Dict, lookup, length, Bool, false, Option, none, some, List, [],
  ◌∷◌, Result, ok, raise, type_error, name_error, assertion_error, ◌>>=◌, if◌then◌else◌,
}
use mo_link.Decoding.{
  Numbers, Json, boolean, integer, text, array, object, list_of, dict_of, at, elements, entries,
  get_or,
}
use mo_link.Decoding.Records.{
  insert_int, SequenceData, Names, SequenceGroupMetadata, ExecuteModelRequest, defaults,
  metadata_arguments, request_arguments,
}

module _ {num : Numbers} where
  -- array('l', v)
  unfoldable pub longs : List (Json num) → Result (List ℤ)
  longs [] = ok []
  longs (integer i ∷ vs) = longs vs >>= λ rest. ok (i ∷ rest)
  longs (boolean b ∷ vs) = longs vs >>= λ rest. ok ((if b then pos 1 else pos 0) ∷ rest)
  longs (v ∷ vs) = raise type_error

  unfoldable pub token_ids : Json num → String → Result (List ℤ)
  unfolding longs entries elements
  token_ids value name =
      entries value >>= λ d. elim (lookup name d) [ none ↦ ok [] | some v ↦ elements v >>= longs ]

  unfoldable pub decode_data : Json num → Result (SequenceData num)
  unfolding token_ids get_or
  decode_data value = token_ids value "_prompt_token_ids" >>= λ prompt.
      token_ids value "_output_token_ids" >>= λ output.
      get_or value "_num_computed_tokens" (integer (pos 0)) >>= λ computed. ok (record {
        _prompt_token_ids = prompt;
        _output_token_ids = output;
        _cumulative_logprob = num.zero;
        _num_computed_tokens = computed;
      })

  unfoldable pub decode_seq_data :
      Dict (Json num) → List (ℤ × SequenceData num) → Result (List (ℤ × SequenceData num))
  unfolding decode_data insert_int
  decode_seq_data [] seq_data = ok seq_data
  decode_seq_data ((key, value) ∷ raw) seq_data = num.int_of key >>= λ k.
      decode_data value >>= λ decoded. decode_seq_data raw (insert_int k decoded seq_data)

  unfoldable pub decode_tables :
      Dict (Json num) → List (ℤ × Json num) → Result (List (ℤ × Json num))
  unfolding insert_int
  decode_tables [] tables = ok tables
  decode_tables ((key, value) ∷ raw) tables =
      num.int_of key >>= λ k. decode_tables raw (insert_int k value tables)

  -- The arguments that are taken by `get` with these defaults.
  unfoldable pub get_all : Json num → Dict (Json num) → Result (Dict (Json num))
  unfolding get_or
  get_all v [] = ok []
  get_all v ((name, default) ∷ names) =
      get_or v name default >>= λ argument. get_all v names >>= λ rest. ok ((name, argument) ∷ rest)

  -- The arguments that are taken from these places.
  unfoldable pub take_all : Json num → List (String × ℕ) → Result (Dict (Json num))
  unfolding at
  take_all v [] = ok []
  take_all v ((name, i) ∷ names) =
      at v i >>= λ argument. take_all v names >>= λ rest. ok ((name, argument) ∷ rest)

  abbrev is_text : Json num → String → Bool
  is_text (text s) t = s == t
  is_text v t = false

  unfoldable pub decode_names : Json num → Json num → Result (Names num)
  unfolding decode_seq_data decode_tables get_all at entries
  decode_names num_steps raw = at raw 1 >>= λ request_id. at raw 2 >>= λ is_prompt.
      at raw 3 >>= λ seq_data_raw. entries seq_data_raw >>= λ seqs.
      decode_seq_data seqs [] >>= λ seq_data. at raw 4 >>= λ sampling_params_raw.
      get_all sampling_params_raw (defaults num) >>= λ sampling_params.
      at raw 5 >>= λ block_tables_raw. entries block_tables_raw >>= λ tables.
      decode_tables tables [] >>= λ block_tables. ok (record {
        request_id = request_id;
        is_prompt = is_prompt;
        seq_data = seq_data;
        sampling_params = sampling_params;
        block_tables = block_tables;
        state_num_steps = num_steps;
      })

  -- For another kind of message the names stand for what they did before.
  abbrev before : Option (Names num) → Result (Names num)
  before none = raise name_error
  before (some names) = ok names

  unfoldable pub names_for : Json num → Option (Names num) → Json num → Result (Names num)
  unfolding decode_names at
  names_for num_steps previous raw = at raw 0 >>= λ kind.
      if is_text kind "SequenceGroupMetadata" then decode_names num_steps raw else before previous

  unfoldable pub decode_list :
      Json num → Option (Names num) → List (Json num) → Result (List (SequenceGroupMetadata num))
  unfolding names_for take_all
  decode_list num_steps previous [] = ok []
  decode_list num_steps previous (raw ∷ raws) = names_for num_steps previous raw >>= λ names.
      take_all raw metadata_arguments >>= λ others.
      decode_list num_steps (some names) raws >>= λ rest.
      ok (record { names = names; others = others } ∷ rest)

  unfoldable pub size : Json num → Result ℕ
  size (array items) = ok (length (list_of num items))
  size (object fields) = ok (length (dict_of num fields))
  size v = raise type_error

  unfoldable pub decode_fields : Json num → Result (ExecuteModelRequest num)
  unfolding at elements decode_list take_all
  decode_fields v = at v 0 >>= λ raws_value. take_all v request_arguments >>= λ others.
      at v 8 >>= λ num_steps. elements raws_value >>= λ raws.
      decode_list num_steps none raws >>= λ list.
      ok (record { seq_group_metadata_list = list; others = others })

  unfoldable pub decoding_execute_model_req : Json num → Result (ExecuteModelRequest num)
  unfolding size decode_fields
  decoding_execute_model_req v =
      size v >>= λ n. if eqb n 13 then decode_fields v else raise assertion_error
