-- ===== src/Tests/Messages.antt =====
-- A batch with one prompt and an output with two samples. Integers are written with one letter or more.
use Prim.Native.String.{◌++◌ as ◌<>◌}
use Prim.Native.String.{count}
use package.text.Mathlib.TextLemmas.{length-append}
use mo_link.Prelude.{
  ℕ, zero, suc, ◌+◌, ℤ, pos, negsuc, String, lookup, Dict, [], ◌∷◌, map, ok, ◌≡◌, refl, ap, ◌∙◌,
  inl, inr, arith,
}
use mo_link.Decoding.{Numbers, Json, null, integer, float, text, array_of}
use mo_link.Decoding.Outputs.{Logprob, as_sent, decoding_sampler_outputs}
use mo_link.Decoding.Returned.{
  Sample, Group, Sent, arrived_group, last_of, decoding_sampler_outputs_lem,
}
use mo_link.Decoding.Returned
use mo_link.Decoding.Sent
use mo_link.Decoding.Sent.{SentData, SentGroup, SentRequest, arrived}
use mo_link.Decoding.Requests.{decoding_execute_model_req}
use mo_link.Decoding.Received.{decoding_execute_model_req_lem}

abbrev write_int : ℤ → String
write_int (pos zero) = ""
write_int (pos (suc n)) = "aa" <> write_int (pos n)
write_int (negsuc zero) = "a"
write_int (negsuc (suc n)) = "aa" <> write_int (negsuc n)

abbrev away_from_zero : ℤ → ℤ
away_from_zero (pos n) = pos (suc n)
away_from_zero (negsuc n) = negsuc (suc n)

abbrev of_count : ℕ → ℤ
of_count zero = pos 0
of_count (suc zero) = negsuc 0
of_count (suc (suc n)) = away_from_zero (of_count n)

abbrev pub numbers : Numbers
numbers = record {
  Float = ℕ;
  zero = 0;
  one = 1;
  inf = 1000;
  int_of = λ s. ok (of_count (count s));
  text_of = write_int;
}

two_more : (s : String) → of_count (count ("aa" <> s)) ≡ away_from_zero (of_count (count s))
two_more s =
    let e : 2 + count s ≡ suc (suc (count s)) = omega arith in
    ap of_count (length-append "aa" s ∙ e)

pub read_write : (i : ℤ) → of_count (count (write_int i)) ≡ i
read_write (pos zero) = refl
read_write (pos (suc n)) = two_more (write_int (pos n)) ∙ ap away_from_zero (read_write (pos n))
read_write (negsuc zero) = refl
read_write (negsuc (suc n)) =
    two_more (write_int (negsuc n)) ∙ ap away_from_zero (read_write (negsuc n))

abbrev likely : Logprob numbers
likely = record { logprob = float 3; rank = integer (pos 1); decoded_token = text "a" }

abbrev unlikely : Logprob numbers
unlikely = record { logprob = null; rank = integer (pos 2); decoded_token = null }

abbrev sample : Json numbers → ℤ → Sample numbers
sample parent token = record {
  parent_seq_id = parent;
  output_token = integer token;
  first = (token, likely);
  others = (pos 9, unlikely) ∷ [];
}

abbrev sent_output : Sent numbers
sent_output = record {
  outputs =
      record { samples = sample null (pos 7) ∷ []; prompt_logprobs = null }
      ∷ record { samples = sample null (pos 8) ∷ []; prompt_logprobs = null }
      ∷ [];
  sampled_token_probs = null;
  logprobs = text "kept";
  deferred_sample_results_args = null;
  sampled_token_ids = null;
  sampled_token_ids_cpu = null;
  spec_decode_worker_metrics = null;
  hidden_states = null;
  prefill_hidden_states = null;
  model_forward_time = null;
  model_execute_time = null;
}

decoding_sampler_outputs_example :
    decoding_sampler_outputs (Returned.layout sent_output)
    ≡ ok (record {
      outputs = map arrived_group sent_output.outputs;
      sampled_token_probs = null;
      sampled_token_ids = null;
      logprobs = last_of sent_output.outputs (as_sent (text "kept"));
      deferred_sample_results_args = null;
    })
decoding_sampler_outputs_example =
    decoding_sampler_outputs_lem read_all sent_output (Returned.layout sent_output) refl
  where
    read_all : (k : ℤ) → numbers.int_of (numbers.text_of k) ≡ ok k
    read_all k = ap ok (read_write k)

abbrev prompt_fields : Dict (Json numbers)
prompt_fields =
    ("_prompt_token_ids", array_of numbers (integer (pos 5) ∷ integer (pos 6) ∷ []))
    ∷ ("_num_computed_tokens", integer (pos 2))
    ∷ []

abbrev sent_request : SentRequest numbers
sent_request = record {
  groups =
      record {
        request_id = text "r";
        is_prompt = null;
        seq_data =
            (pos 0, record { fields = prompt_fields; prompt = pos 5 ∷ pos 6 ∷ []; output = [] })
            ∷ [];
        sampling_params = ("top_k", integer (pos 3)) ∷ ("seed", integer (pos 4)) ∷ [];
        block_tables = (pos 0, array_of numbers []) ∷ (pos 1, null) ∷ [];
        do_sample = null;
        pooling_params = null;
        lora_request = null;
        computed_block_nums = null;
        state = null;
        multi_modal_data = null;
        multi_modal_placeholders = null;
        encoder_seq_data = null;
        cross_block_table = null;
        prompt_adapter_request = null;
        token_chunk_size = integer (pos 2);
        num_speculative_tokens = null;
      }
      ∷ [];
  blocks_to_swap_in = null;
  blocks_to_swap_out = null;
  blocks_to_copy = null;
  virtual_engine = integer (pos 0);
  num_lookahead_slots = integer (pos 0);
  running_queue_size = integer (pos 1);
  previous_hidden_states = null;
  num_steps = integer (pos 1);
  spec_step_idx = null;
  finished_requests_ids = array_of numbers [];
  last_sampled_token_ids = null;
  async_callback = null;
}

decoding_execute_model_req_example :
    decoding_execute_model_req (Sent.layout sent_request) ≡ ok (arrived sent_request)
unfolding lookup
decoding_execute_model_req_example =
    decoding_execute_model_req_lem numbers (λ k. ap ok (read_write k)) sent_request
      (Sent.layout sent_request) refl
      ((inl refl, inr (refl, refl), tt), (refl, tt), (refl, (refl, tt)), tt)
