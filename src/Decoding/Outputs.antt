-- ===== src/Decoding/Outputs.antt =====
-- `decoding_sampler_outputs`: what a stage's result is when it comes back to the head.
use mo_link.Prelude.{ℤ, String, Dict, List, [], ◌∷◌, Result, ok, raise, stop_iteration, ◌>>=◌}
use mo_link.Decoding.{Numbers, Json, null, float, at, elements, entries, get_or}

module _ (num : Numbers) where
  pub record Logprob : Type 0 where
    pub logprob : Json num
    pub rank : Json num
    pub decoded_token : Json num

  pub record SequenceOutput : Type 0 where
    pub parent_seq_id : Json num
    pub output_token : Json num
    pub logprobs : ℤ × Logprob

  pub record CompletionSequenceGroupOutput : Type 0 where
    pub samples : List SequenceOutput
    pub prompt_logprobs : Json num

  -- What the name `logprobs` stands for: the third field of the message, or a sample's dictionary.
  pub data Logprobs : Type 0 where
    as_sent : Json num → Logprobs
    of_sample : ℤ × Logprob → Logprobs

  pub record SamplerOutput : Type 0 where
    pub outputs : List CompletionSequenceGroupOutput
    pub sampled_token_probs : Json num
    pub sampled_token_ids : Json num
    pub logprobs : Logprobs
    pub deferred_sample_results_args : Json num

module _ {num : Numbers} where
  -- The infinite logprob is null in JSON.
  abbrev pub or_inf : Json num → Json num
  or_inf null = float num.inf
  or_inf v = v

  unfoldable pub decode_entry : String × Json num → Result (ℤ × Logprob num)
  decode_entry (k, v) = num.int_of k >>= λ token. get_or v "logprob" null >>= λ logprob.
      get_or v "rank" null >>= λ rank. get_or v "decoded_token" null >>= λ decoded_token.
      ok (token, record { logprob = or_inf logprob; rank = rank; decoded_token = decoded_token })

  -- next(iter(d.items()))
  unfoldable pub first_entry : Dict (Json num) → Result (ℤ × Logprob num)
  unfolding decode_entry
  first_entry [] = raise stop_iteration
  first_entry (e ∷ d) = decode_entry e

  unfoldable pub decode_sample : Json num → Result (SequenceOutput num)
  unfolding first_entry at entries
  decode_sample s_d = at s_d 0 >>= λ parent_seq_id. at s_d 1 >>= λ output_token.
      at s_d 2 >>= λ logprobs. entries logprobs >>= λ d. first_entry d >>= λ first.
      ok (record { parent_seq_id = parent_seq_id; output_token = output_token; logprobs = first })

  -- The loop over the samples of a group, with what `logprobs` stands for.
  unfoldable pub decode_samples :
      List (Json num) → Logprobs num → Result (List (SequenceOutput num) × Logprobs num)
  unfolding decode_sample
  decode_samples [] logprobs = ok ([], logprobs)
  decode_samples (s_d ∷ samples_data) logprobs = decode_sample s_d >>= λ sample.
      decode_samples samples_data (of_sample sample.logprobs) >>= λ r. ok (sample ∷ r.0, r.1)

  unfoldable pub decode_groups :
      List (Json num)
      → Logprobs num
      → Result (List (CompletionSequenceGroupOutput num) × Logprobs num)
  unfolding decode_samples at elements
  decode_groups [] logprobs = ok ([], logprobs)
  decode_groups (c_s_g_o ∷ outputs) logprobs = at c_s_g_o 0 >>= λ samples_data.
      at c_s_g_o 1 >>= λ prompt_logprobs. elements samples_data >>= λ samples.
      decode_samples samples logprobs >>= λ r. decode_groups outputs r.1 >>= λ rest.
      ok (record { samples = r.0; prompt_logprobs = prompt_logprobs } ∷ rest.0, rest.1)

  -- The fields that are read but not used must be there as well.
  unfoldable pub decoding_sampler_outputs : Json num → Result (SamplerOutput num)
  unfolding decode_groups at elements
  decoding_sampler_outputs v = at v 0 >>= λ outputs. at v 1 >>= λ sampled_token_probs.
      at v 2 >>= λ logprobs. at v 3 >>= λ deferred_sample_results_args.
      at v 4 >>= λ sampled_token_ids. at v 5 >>= λ sampled_token_ids_cpu.
      at v 6 >>= λ spec_decode_worker_metrics. at v 7 >>= λ hidden_states.
      at v 8 >>= λ prefill_hidden_states. at v 9 >>= λ model_forward_time.
      at v 10 >>= λ model_execute_time. elements outputs >>= λ groups.
      decode_groups groups (as_sent logprobs) >>= λ r. ok (record {
        outputs = r.0;
        sampled_token_probs = sampled_token_probs;
        sampled_token_ids = sampled_token_ids;
        logprobs = r.1;
        deferred_sample_results_args = deferred_sample_results_args;
      })
