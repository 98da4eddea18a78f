-- ===== src/Tests/Layers.antt =====
-- The layer ranges of two nodes that serve a model of 24 layers.
use mo_link.Prelude.{
  ℤ, pos, negsuc, ◌≡◌, refl, inl, inr, true, false, none, [], ◌∷◌, ok, arith, eqb_ℤ, if◌then◌else◌,
  ◌&&◌,
}
use mo_link.ParallelState.{
  State, PpIndices, initial, unpatched, all_remaining, init_molink_parallel_state, clip_range,
  get_molink_pp_indices, call_get_pp_indices, is_first_rank, is_last_rank,
}
use mo_link.ParallelState.Ranges.{
  InModel, get_molink_pp_indices-InModel, layers_from, loaded, loaded-Tiles,
}
use mo_link.ParallelState.Stages.{
  configured, update_molink_stage_info-stages, init_misses_last_stage,
}
use mo_link.ParallelState.Patches.{Calls, apply_all, ever_enabled, ever_grouped, apply_all-answers}

-- vLLM's own answer, for one rank.
abbrev whole_model : PpIndices
whole_model n rank size = (pos 0, n)

abbrev serving : ℤ → ℤ → State
serving s e = record initial { enabled = true; start_layer = s; end_layer = e }

clipped :
    (clip_range (negsuc 3) (pos 99) (pos 24) ≡ (pos 0, pos 24))
    × (clip_range (pos 9) (pos 9) (pos 24) ≡ (pos 0, pos 24))
    × (clip_range (pos 9) all_remaining (pos 24) ≡ (pos 9, pos 24))
unfolding clip_range
clipped = (refl, refl, refl)

get_molink_pp_indices-InModel_example :
    InModel
      (pos 24)
      (get_molink_pp_indices whole_model (serving (pos 30) (pos 2)) (pos 24) (pos 0) (pos 1))
    × (InModel (pos 24) (pos 30, pos 2)
        → get_molink_pp_indices whole_model (serving (pos 30) (pos 2)) (pos 24) (pos 0) (pos 1)
          ≡ (pos 30, pos 2))
    × (InModel (pos 24) (pos 30, pos 24)
        → pos 2 ≡ all_remaining
        → get_molink_pp_indices whole_model (serving (pos 30) (pos 2)) (pos 24) (pos 0) (pos 1)
          ≡ (pos 30, pos 24))
get_molink_pp_indices-InModel_example =
    get_molink_pp_indices-InModel whole_model (serving (pos 30) (pos 2)) (pos 24) (pos 0) (pos 1)
      refl (omega arith)

loaded-Tiles_example :
    loaded whole_model 24 (serving (pos 0) (pos 10) ∷ serving (pos 10) (negsuc 0) ∷ [])
    ≡ layers_from 0 24
loaded-Tiles_example =
    loaded-Tiles whole_model 24 (serving (pos 0) (pos 10) ∷ serving (pos 10) (negsuc 0) ∷ []) (
      10,
      refl,
      refl,
      inl refl,
      omega arith,
      omega arith,
      (24, refl, refl, inr (refl, refl), omega arith, omega arith, refl),
    )

update_molink_stage_info-stages_example :
    let g = configured initial (pos 10) (negsuc 0) (pos 24) (pos 1) (pos 2) in
    (g.is_first_stage
      ≡ eqb_ℤ (get_molink_pp_indices whole_model g (pos 24) (pos 1) (pos 2)).0 (pos 0))
    × (g.is_last_stage
        ≡ eqb_ℤ (get_molink_pp_indices whole_model g (pos 24) (pos 1) (pos 2)).1 (pos 24))
update_molink_stage_info-stages_example =
    update_molink_stage_info-stages whole_model initial (pos 10) (negsuc 0) (pos 24) (pos 1) (pos 2)
      (omega arith)

init_misses_last_stage_example :
    let g = init_molink_parallel_state initial true (pos 10) (pos 24) none (pos 1) (pos 2) in
    (get_molink_pp_indices whole_model g (pos 24) (pos 1) (pos 2) ≡ (pos 10, pos 24))
    × (g.is_last_stage ≡ false)
init_misses_last_stage_example =
    init_misses_last_stage whole_model initial (pos 10) (pos 24) (pos 1) (pos 2) (omega arith)

abbrev patched_twice : Calls
patched_twice = (serving (pos 0) (pos 10), false) ∷ (serving (pos 0) (pos 10), true) ∷ []

apply_all-answers_example :
    (call_get_pp_indices whole_model initial
        (apply_all patched_twice unpatched)
        (pos 24)
        (pos 0)
        (pos 1)
      ≡ ok (
          if false && ever_enabled patched_twice
          then clip_range (pos 0) all_remaining (pos 24)
          else (pos 0, pos 24)))
    × (is_first_rank false initial (apply_all patched_twice unpatched).rank_property
        ≡ (if false && ever_grouped patched_twice then true else false))
    × (is_last_rank true initial (apply_all patched_twice unpatched).rank_property
        ≡ (if false && ever_grouped patched_twice then true else true))
apply_all-answers_example =
    apply_all-answers patched_twice whole_model initial (pos 24) (pos 0) (pos 1) false true
