-- ===== src/Tests/Syncs.antt =====
-- Runs of the block sync.
use appsec_seq.Base.{ℕ, ◌≡◌, refl, true, false, List, [], ◌∷◌, none, returns, ◌⊎◌, arith}
use appsec_seq.Base.Maps.{IsMap, get, nat_eq, change}
use appsec_seq.BlockSync.{
  GlobalBlockSync, pending_progression, ready_for_next_block, handled_reorg, sign_off_on_block,
  proper_proposal, contains, same_state, same_sign_off, new_block,
}
use appsec_seq.BlockSync.Exact.{
  with_sign_off, module_ready, number_of, tail, sign_off_on_block_exact,
}
use appsec_seq.BlockSync.Stuck.{announces, Split, Waits, here, next, split_modules_wait}
use appsec_seq.BlockSync.Progress.{queues, sign_each, after_block, all_sign_off}

-- Two modules, and the proposal of block 8.
abbrev sync : GlobalBlockSync
sync = record {
  pending_state = pending_progression 8 ∷ [];
  block_number = 7;
  registered_modules = (1, []) ∷ (2, []) ∷ [];
  all_modules_registered = true;
}

proper_8 : proper_proposal sync (pending_progression 8) ≡ true
unfolding proper_proposal contains same_state
proper_8 = refl

modules-IsMap : IsMap sync.registered_modules
modules-IsMap = ((refl, tt), (tt, tt))

sign_off_on_block_exact_example :
    let signed = with_sign_off 1 (ready_for_next_block none) in
    (h : GlobalBlockSync) × (ws : List ℕ) × (sign_off_on_block sync 1 8 none ≡ returns (h, ws))
    × (((i : ℕ) × (module_ready 1 (ready_for_next_block none) i (get i sync.registered_modules)
              ≡ false))
          × (h.pending_state ≡ pending_progression 8 ∷ [])
          × (h.block_number ≡ sync.block_number)
          × ((k : ℕ)
              → get k h.registered_modules ≡ change (signed k) (get k sync.registered_modules))
        ⊎ ((i : ℕ)
            → module_ready 1 (ready_for_next_block none) i (get i sync.registered_modules) ≡ true)
          × (h.pending_state ≡ [])
          × (h.block_number ≡ number_of (pending_progression 8) sync.block_number)
          × ((k : ℕ)
              → get k h.registered_modules
                ≡ change (λ q. tail (signed k q)) (get k sync.registered_modules)))
sign_off_on_block_exact_example =
    sign_off_on_block_exact sync 1 8 (pending_progression 8) [] none modules-IsMap refl proper_8

all_sign_off_example :
    sign_each sync (2 ∷ (1 ∷ [])) 8 none
    ≡ returns (after_block sync 8 [] (queues (ready_for_next_block none) [] (1 ∷ 2 ∷ [])))
all_sign_off_example =
    all_sign_off sync 8 none [] (1 ∷ 2 ∷ []) 2 (1 ∷ []) refl refl (ground arith) (ground arith)
      (ground arith)

-- Module 1 has signed off on a block and module 2 on a reorg.
abbrev split : GlobalBlockSync
split = record sync {
  registered_modules = (1, ready_for_next_block none ∷ []) ∷ (2, handled_reorg none ∷ []) ∷ [];
}

split-Split : Split 1 2 (ready_for_next_block none) (handled_reorg none) split
unfolding get
split-Split = record { queue_i = []; queue_j = []; at_i = refl; at_j = refl }

differ : same_sign_off (ready_for_next_block none) (handled_reorg none) ≡ false
unfolding same_sign_off
differ = refl

split_modules_wait_example :
    Waits 1 2 (ready_for_next_block none) (handled_reorg none) split (new_block split 9)
split_modules_wait_example = split_modules_wait differ split-Split (next here (announces 9 refl))
