-- ===== src/Decoding/Sent.antt =====
-- A batch before it is sent, how msgspec lays it out, and what of it can arrive.
use mo_link.Prelude.{
  ℤ, pos, Dict, lookup, Bool, true, false, Option, none, some, List, [], ◌∷◌, ◌++◌, map, ◌≡◌, ◌⊎◌,
  if◌then◌else◌,
}
use mo_link.Decoding.{Numbers, Json, integer, text, array_of, object_of, or_else}
use mo_link.Decoding.Records.{
  eqb_ℤ, SequenceData, SequenceGroupMetadata, ExecuteModelRequest, defaults,
}

-- k is one of the keys.
abbrev pub is_key : ℤ → List ℤ → Bool
is_key k [] = false
is_key k (j ∷ keys) = if eqb_ℤ j k then true else is_key k keys

-- No key is one of those before it.
abbrev pub AreNew : List ℤ → List ℤ → Type 0
AreNew seen [] = Unit
AreNew seen (k ∷ keys) = (is_key k seen ≡ false) × AreNew (seen ++ k ∷ []) keys

abbrev pub int_keys {ℓ} : {V : Type ℓ} → List (ℤ × V) → List ℤ
int_keys [] = []
int_keys ((k, v) ∷ d) = k ∷ int_keys d

module _ (num : Numbers) where
  pub record SentData : Type 0 where
    pub fields : Dict (Json num)
    pub prompt : List ℤ
    pub output : List ℤ

  pub record SentGroup : Type 0 where
    pub request_id : Json num
    pub is_prompt : Json num
    pub seq_data : List (ℤ × SentData)
    pub sampling_params : Dict (Json num)
    pub block_tables : List (ℤ × Json num)
    pub do_sample : Json num
    pub pooling_params : Json num
    pub lora_request : Json num
    pub computed_block_nums : Json num
    pub state : Json num
    pub multi_modal_data : Json num
    pub multi_modal_placeholders : Json num
    pub encoder_seq_data : Json num
    pub cross_block_table : Json num
    pub prompt_adapter_request : Json num
    pub token_chunk_size : Json num
    pub num_speculative_tokens : Json num

  pub record SentRequest : Type 0 where
    pub groups : List SentGroup
    pub blocks_to_swap_in : Json num
    pub blocks_to_swap_out : Json num
    pub blocks_to_copy : Json num
    pub virtual_engine : Json num
    pub num_lookahead_slots : Json num
    pub running_queue_size : Json num
    pub previous_hidden_states : Json num
    pub num_steps : Json num
    pub spec_step_idx : Json num
    pub finished_requests_ids : Json num
    pub last_sampled_token_ids : Json num
    pub async_callback : Json num

module _ {num : Numbers} where
  -- A field with token ids, which may be left out when there are none.
  abbrev pub IsIds : List ℤ → Option (Json num) → Type 0
  IsIds ids field = (field ≡ some (array_of num (map integer ids))) ⊎ ((field ≡ none) × (ids ≡ []))

  abbrev pub AreData : List (ℤ × SentData num) → Type 0
  AreData [] = Unit
  AreData ((k, d) ∷ seqs) =
      IsIds d.prompt (lookup "_prompt_token_ids" d.fields)
      × IsIds d.output (lookup "_output_token_ids" d.fields)
      × AreData seqs

  -- The fields hold the token ids, and no sequence stands twice.
  abbrev pub AreGroups : List (SentGroup num) → Type 0
  AreGroups [] = Unit
  AreGroups (g ∷ groups) =
      AreData g.seq_data
      × AreNew [] (int_keys g.seq_data)
      × AreNew [] (int_keys g.block_tables)
      × AreGroups groups

  abbrev pub seq_layout : List (ℤ × SentData num) → Dict (Json num)
  seq_layout [] = []
  seq_layout ((k, d) ∷ seqs) = (num.text_of k, object_of num d.fields) ∷ seq_layout seqs

  abbrev pub table_layout : List (ℤ × Json num) → Dict (Json num)
  table_layout [] = []
  table_layout ((k, v) ∷ tables) = (num.text_of k, v) ∷ table_layout tables

  abbrev pub group_layout : SentGroup num → Json num
  group_layout g = array_of num (
      text "SequenceGroupMetadata"
      ∷ g.request_id
      ∷ g.is_prompt
      ∷ object_of num (seq_layout g.seq_data)
      ∷ object_of num g.sampling_params
      ∷ object_of num (table_layout g.block_tables)
      ∷ g.do_sample
      ∷ g.pooling_params
      ∷ g.lora_request
      ∷ g.computed_block_nums
      ∷ g.state
      ∷ g.multi_modal_data
      ∷ g.multi_modal_placeholders
      ∷ g.encoder_seq_data
      ∷ g.cross_block_table
      ∷ g.prompt_adapter_request
      ∷ g.token_chunk_size
      ∷ g.num_speculative_tokens
      ∷ [])

  abbrev pub layout : SentRequest num → Json num
  layout r = array_of num (
      array_of num (map group_layout r.groups)
      ∷ r.blocks_to_swap_in
      ∷ r.blocks_to_swap_out
      ∷ r.blocks_to_copy
      ∷ r.virtual_engine
      ∷ r.num_lookahead_slots
      ∷ r.running_queue_size
      ∷ r.previous_hidden_states
      ∷ r.num_steps
      ∷ r.spec_step_idx
      ∷ r.finished_requests_ids
      ∷ r.last_sampled_token_ids
      ∷ r.async_callback
      ∷ [])

  -- The token ids and the number of computed tokens arrive, the logprob starts anew.
  abbrev pub arrived_data : SentData num → SequenceData num
  arrived_data d = record {
    _prompt_token_ids = d.prompt;
    _output_token_ids = d.output;
    _cumulative_logprob = num.zero;
    _num_computed_tokens = or_else (integer (pos 0)) (lookup "_num_computed_tokens" d.fields);
  }

  abbrev pub arrived_seqs : List (ℤ × SentData num) → List (ℤ × SequenceData num)
  arrived_seqs [] = []
  arrived_seqs ((k, d) ∷ seqs) = (k, arrived_data d) ∷ arrived_seqs seqs

  -- Of the sampling parameters those that have a default here.
  abbrev pub arrived_sampling : Dict (Json num) → Dict (Json num) → Dict (Json num)
  arrived_sampling d [] = []
  arrived_sampling d ((name, default) ∷ names) =
      (name, or_else default (lookup name d)) ∷ arrived_sampling d names

  abbrev pub arrived_group : Json num → SentGroup num → SequenceGroupMetadata num
  arrived_group num_steps g = record {
    names = record {
      request_id = g.request_id;
      is_prompt = g.is_prompt;
      seq_data = arrived_seqs g.seq_data;
      sampling_params = arrived_sampling g.sampling_params (defaults num);
      block_tables = g.block_tables;
      state_num_steps = num_steps;
    };
    others =
        ("do_sample", g.do_sample)
        ∷ ("pooling_params", g.pooling_params)
        ∷ ("lora_request", g.lora_request)
        ∷ ("computed_block_nums", g.computed_block_nums)
        ∷ ("multi_modal_data", g.multi_modal_data)
        ∷ ("multi_modal_placeholders", g.multi_modal_placeholders)
        ∷ ("encoder_seq_data", g.encoder_seq_data)
        ∷ ("cross_block_table", g.cross_block_table)
        ∷ ("prompt_adapter_request", g.prompt_adapter_request)
        ∷ ("token_chunk_size", g.token_chunk_size)
        ∷ ("num_speculative_tokens", g.num_speculative_tokens)
        ∷ [];
  }

  abbrev pub arrived : SentRequest num → ExecuteModelRequest num
  arrived r = record {
    seq_group_metadata_list = map (arrived_group r.num_steps) r.groups;
    others =
        ("blocks_to_swap_in", r.blocks_to_swap_in)
        ∷ ("blocks_to_swap_out", r.blocks_to_swap_out)
        ∷ ("blocks_to_copy", r.blocks_to_copy)
        ∷ ("virtual_engine", r.virtual_engine)
        ∷ ("num_lookahead_slots", r.num_lookahead_slots)
        ∷ ("running_queue_size", r.running_queue_size)
        ∷ ("previous_hidden_states", r.previous_hidden_states)
        ∷ ("num_steps", r.num_steps)
        ∷ ("spec_step_idx", r.spec_step_idx)
        ∷ ("finished_requests_ids", r.finished_requests_ids)
        ∷ ("last_sampled_token_ids", r.last_sampled_token_ids)
        ∷ ("async_callback", r.async_callback)
        ∷ [];
  }
