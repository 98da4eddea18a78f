-- ===== src/Decoding/Records.antt =====
-- What `decoding_execute_model_req` makes: the objects of vLLM by the arguments that their constructors
-- get, and the names of those arguments.
use mo_link.Prelude.{
  ℕ, ℤ, pos, negsuc, ltb_ℤ, String, Dict, Bool, true, false, not, ◌&&◌, List, [], ◌∷◌,
  if◌then◌else◌,
}
use mo_link.Decoding.{Numbers, Json, null, boolean, integer, float, array_of}

abbrev pub eqb_ℤ : ℤ → ℤ → Bool
eqb_ℤ a b = not (ltb_ℤ a b) && not (ltb_ℤ b a)

-- d[k] = v
unfoldable pub insert_int {ℓ} : {V : Type ℓ} → ℤ → V → List (ℤ × V) → List (ℤ × V)
insert_int k v [] = (k, v) ∷ []
insert_int k v ((j, w) ∷ d) =
    let rest = insert_int k v d in if eqb_ℤ j k then (j, v) ∷ d else (j, w) ∷ rest

module _ (num : Numbers) where
  pub record SequenceData : Type 0 where
    pub _prompt_token_ids : List ℤ
    pub _output_token_ids : List ℤ
    pub _cumulative_logprob : num.Float
    pub _num_computed_tokens : Json num

  -- The names that the loop over the groups sets for a whole group's message.
  pub record Names : Type 0 where
    pub request_id : Json num
    pub is_prompt : Json num
    pub seq_data : List (ℤ × SequenceData)
    pub sampling_params : Dict (Json num)
    pub block_tables : List (ℤ × Json num)
    -- SequenceGroupState(num_steps=num_steps)
    pub state_num_steps : Json num

  pub record SequenceGroupMetadata : Type 0 where
    pub names : Names
    pub others : Dict (Json num)

  pub record ExecuteModelRequest : Type 0 where
    pub seq_group_metadata_list : List SequenceGroupMetadata
    pub others : Dict (Json num)

  -- The arguments of SamplingParams with what stands for a missing one.
  abbrev pub defaults : Dict (Json num)
  defaults =
      ("n", integer (pos 1))
      ∷ ("presence_penalty", float num.zero)
      ∷ ("frequency_penalty", float num.zero)
      ∷ ("repetition_penalty", float num.one)
      ∷ ("temperature", float num.one)
      ∷ ("top_p", float num.one)
      ∷ ("top_k", integer (negsuc 0))
      ∷ ("max_tokens", integer (pos 16))
      ∷ ("min_tokens", integer (pos 0))
      ∷ ("stop", array_of num [])
      ∷ ("stop_token_ids", array_of num [])
      ∷ ("ignore_eos", boolean false)
      ∷ ("logprobs", null)
      ∷ ("prompt_logprobs", null)
      ∷ ("skip_special_tokens", boolean true)
      ∷ ("spaces_between_special_tokens", boolean true)
      ∷ []

abbrev pub metadata_arguments : List (String × ℕ)
metadata_arguments =
    ("do_sample", 6)
    ∷ ("pooling_params", 7)
    ∷ ("lora_request", 8)
    ∷ ("computed_block_nums", 9)
    ∷ ("multi_modal_data", 11)
    ∷ ("multi_modal_placeholders", 12)
    ∷ ("encoder_seq_data", 13)
    ∷ ("cross_block_table", 14)
    ∷ ("prompt_adapter_request", 15)
    ∷ ("token_chunk_size", 16)
    ∷ ("num_speculative_tokens", 17)
    ∷ []

abbrev pub request_arguments : List (String × ℕ)
request_arguments =
    ("blocks_to_swap_in", 1)
    ∷ ("blocks_to_swap_out", 2)
    ∷ ("blocks_to_copy", 3)
    ∷ ("virtual_engine", 4)
    ∷ ("num_lookahead_slots", 5)
    ∷ ("running_queue_size", 6)
    ∷ ("previous_hidden_states", 7)
    ∷ ("num_steps", 8)
    ∷ ("spec_step_idx", 9)
    ∷ ("finished_requests_ids", 10)
    ∷ ("last_sampled_token_ids", 11)
    ∷ ("async_callback", 12)
    ∷ []
