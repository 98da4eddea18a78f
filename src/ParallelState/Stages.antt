-- ===== src/ParallelState/Stages.antt =====
-- The stage flags against the layers that a node loads.
use mo_link.Prelude.{ℤ, pos, eqb_ℤ, ◌≡◌, true, false, none, arith, if◌then◌else◌}
use mo_link.ParallelState.{
  State, PpIndices, all_remaining, init_molink_parallel_state, get_molink_pp_indices,
  update_molink_stage_info,
}
use mo_link.ParallelState.Ranges.{InModel}

-- A node's state once its range is configured and the model's number of layers is known.
abbrev pub configured : State → ℤ → ℤ → ℤ → ℤ → ℤ → State
configured g s e n rank size =
    update_molink_stage_info (init_molink_parallel_state g true s e none rank size) n

-- For a node with a nonempty range of the model's layers, where an end of -1 stands for the model's
-- end: after the initialization and the update with the model's number of layers, the node is the
-- first stage exactly when it loads the model's first layer, and the last stage exactly when it
-- loads the model's last one.
pub update_molink_stage_info-stages :
    (fallback : PpIndices) (g : State) (s e n rank size : ℤ)
    → InModel n (s, (if eqb_ℤ e all_remaining then n else e))
    → ((configured g s e n rank size).is_first_stage
        ≡ eqb_ℤ
            (get_molink_pp_indices fallback (configured g s e n rank size) n rank size).0
            (pos 0))
      × ((configured g s e n rank size).is_last_stage
          ≡ eqb_ℤ (get_molink_pp_indices fallback (configured g s e n rank size) n rank size).1 n)
unfolding update_molink_stage_info init_molink_parallel_state get_molink_pp_indices
update_molink_stage_info-stages fallback g s e n rank size v = ground arith

-- Without the update the flag is wrong: a node whose configured range ends, by number, with the
-- model's last layer loads that layer and is not the last stage.
pub init_misses_last_stage :
    (fallback : PpIndices) (g : State) (s n rank size : ℤ)
    → InModel n (s, n)
    → let g' = init_molink_parallel_state g true s n none rank size in
      (get_molink_pp_indices fallback g' n rank size ≡ (s, n)) × (g'.is_last_stage ≡ false)
unfolding init_molink_parallel_state get_molink_pp_indices
init_misses_last_stage fallback g s n rank size v = ground arith
