-- ===== src/BlockSync/Stuck.antt =====
-- Modules of BlockSync whose first sign-offs are of different kinds.
use mathlib.Core.List.{append-nil, append_assoc}
use appsec_seq.Base.{
  ℕ, ◌≡◌, refl, sym, ap, ◌∙◌, true, false, List, [], ◌∷◌, ◌++◌, Option, some, returns,
  if◌then◌else◌, ◌==◌, inl, inr, Bool-cases, arith,
}
use appsec_seq.Base.Maps.{Map, nat_eq, get, get-insert}
use appsec_seq.BlockSync.{
  GlobalBlockSync, GlobalBlockState, SignOffState, same_sign_off, push_sign_off, all_front,
  sign_off, sign_off_on_block, sign_off_reorg, new_block, reorg, register, finalize_modules,
  pending_progression, pending_reorg, ready_for_next_block, handled_reorg, is_last,
}
use appsec_seq.BlockSync.Exact.{get-push_sign_off, all_front-get}

-- What the producer and the modules may do.
pub data Step (g h : GlobalBlockSync) : Type 0 where
  announces : (n : ℕ) → h ≡ new_block g n → Step g h
  reorgs : (first last : ℕ) → h ≡ reorg g first last → Step g h
  finalizes : h ≡ finalize_modules g → Step g h
  registers : (m : ℕ) → register g m ≡ returns h → Step g h
  signs_block :
      (m n : ℕ) (w : Option ℕ) (ws : List ℕ)
      → sign_off_on_block g m n w ≡ returns (h, ws)
      → Step g h
  signs_reorg :
      (m first last : ℕ) (w : Option ℕ) (ws : List ℕ)
      → sign_off_reorg g m first last w ≡ returns (h, ws)
      → Step g h

pub data Reach (g : GlobalBlockSync) : GlobalBlockSync → Type 0 where
  here : Reach g g
  next : {h k : GlobalBlockSync} → Reach g h → Step h k → Reach g k

-- The modules `i` and `j` gave the sign-offs `a` and `b` first.
pub record Split (i j : ℕ) (a b : SignOffState) (g : GlobalBlockSync) : Type 0 where
  pub queue_i : List SignOffState
  pub queue_j : List SignOffState
  pub at_i : get i g.registered_modules ≡ some (a ∷ queue_i)
  pub at_j : get j g.registered_modules ≡ some (b ∷ queue_j)

-- Two kinds that are both that of `c` are the same.
same_sign_off_trans :
    (a b c : SignOffState)
    → same_sign_off a c ≡ true
    → same_sign_off b c ≡ true
    → same_sign_off a b ≡ true
unfolding same_sign_off
same_sign_off_trans a b c h k = ground arith

-- A push leaves the first sign-off of a queue.
get-push_front :
    (m k : ℕ) (c a : SignOffState) (q : List SignOffState) (ms : Map ℕ (List SignOffState))
    → get k ms ≡ some (a ∷ q)
    → get k (push_sign_off m c ms) ≡ some (a ∷ (if k == m then q ++ c ∷ [] else q))
get-push_front m k c a q ms e = ground (arith, get-push_sign_off m c k ms)

all_front-Split :
    {i j : ℕ} {a b : SignOffState} {g : GlobalBlockSync} (m : ℕ) (c : SignOffState)
    → same_sign_off a b ≡ false
    → Split i j a b g
    → all_front c (push_sign_off m c g.registered_modules) ≡ false
all_front-Split {i} {j} {a} {b} {g} m c ne s =
    elim (Bool-cases (all_front c (push_sign_off m c g.registered_modules))) [
      | inr e ↦ e
      | inl e ↦ absurd (
          ground (
            arith,
            same_sign_off_trans a b c
                (all_front-get c i _ _ e (get-push_front m i c a s.queue_i _ s.at_i))
                (all_front-get c j _ _ e (get-push_front m j c b s.queue_j _ s.at_j)),
          ))
    ]

sign_off-Split :
    {i j : ℕ} {a b : SignOffState} {g h : GlobalBlockSync} (step : GlobalBlockState → ℕ → ℕ) (m : ℕ)
    (p : GlobalBlockState) (c : SignOffState) (ws : List ℕ)
    → same_sign_off a b ≡ false
    → Split i j a b g
    → sign_off step g m p c ≡ returns (h, ws)
    → h ≡ record g { registered_modules = push_sign_off m c g.registered_modules }
unfolding sign_off
sign_off-Split step m p c ws ne s e = ground (arith, all_front-Split m c ne s)

-- The state but for the block number and what was proposed since.
pub record Waits (i j : ℕ) (a b : SignOffState) (g h : GlobalBlockSync) : Type 0 where
  pub split : Split i j a b h
  pub number : h.block_number ≡ g.block_number
  pub added : List GlobalBlockState
  pub proposals : h.pending_state ≡ g.pending_state ++ added

-- A change that leaves the modules alone.
Waits-of_same :
    {i j : ℕ} {a b : SignOffState} {g h : GlobalBlockSync} (added : List GlobalBlockState)
    → Split i j a b g
    → h.registered_modules ≡ g.registered_modules
    → h.block_number ≡ g.block_number
    → h.pending_state ≡ g.pending_state ++ added
    → Waits i j a b g h
Waits-of_same {i} {j} added s m n p = record {
  split = record {
    queue_i = s.queue_i;
    queue_j = s.queue_j;
    at_i = ap (get i) m ∙ s.at_i;
    at_j = ap (get j) m ∙ s.at_j;
  };
  number = n;
  added = added;
  proposals = p;
}

Waits-of_push :
    {i j : ℕ} {a b : SignOffState} {g h : GlobalBlockSync} (m : ℕ) (c : SignOffState)
    → Split i j a b g
    → h ≡ record g { registered_modules = push_sign_off m c g.registered_modules }
    → Waits i j a b g h
Waits-of_push {i} {j} {a} {b} {g} m c s e = rw e (record {
  split = record {
    queue_i = if i == m then s.queue_i ++ c ∷ [] else s.queue_i;
    queue_j = if j == m then s.queue_j ++ c ∷ [] else s.queue_j;
    at_i = get-push_front m i c a s.queue_i g.registered_modules s.at_i;
    at_j = get-push_front m j c b s.queue_j g.registered_modules s.at_j;
  };
  number = refl;
  added = [];
  proposals = sym (append-nil g.pending_state);
})

Waits-of_register :
    {i j : ℕ} {a b : SignOffState} {g h : GlobalBlockSync} (m : ℕ)
    → Split i j a b g
    → register g m ≡ returns h
    → Waits i j a b g h
unfolding register
Waits-of_register {i} {j} {g = g} m s e = record {
  split = record {
    queue_i = s.queue_i;
    queue_j = s.queue_j;
    at_i = ground (arith, s.at_i, get-insert i m [] g.registered_modules);
    at_j = ground (arith, s.at_j, get-insert j m [] g.registered_modules);
  };
  number = ground arith;
  added = [];
  proposals = ground (arith, append-nil g.pending_state);
}

Step-Waits :
    {i j : ℕ} {a b : SignOffState} {g h : GlobalBlockSync}
    → same_sign_off a b ≡ false
    → Split i j a b g
    → Step g h
    → Waits i j a b g h
unfolding new_block reorg finalize_modules sign_off_on_block sign_off_reorg
Step-Waits {g = g} ne s (announces n e) =
    elim (Bool-cases (is_last (pending_progression n) g.pending_state)) [
      | inl same ↦
          Waits-of_same [] s (ground arith) (ground arith)
            (ground (arith, append-nil g.pending_state))
      | inr fresh ↦
          Waits-of_same (pending_progression n ∷ []) s (ground arith) (ground arith) (ground arith)
    ]
Step-Waits ne s (reorgs first last e) =
    Waits-of_same (pending_reorg first last ∷ []) s (ground arith) (ground arith) (ground arith)
Step-Waits {g = g} ne s (finalizes e) =
    Waits-of_same [] s (ground arith) (ground arith) (ground (arith, append-nil g.pending_state))
Step-Waits ne s (registers m e) = Waits-of_register m s e
Step-Waits ne s (signs_block m n w ws e) =
    Waits-of_push m (ready_for_next_block w) s
      (sign_off-Split _ m _ (ready_for_next_block w) ws ne s e)
Step-Waits ne s (signs_reorg m first last w ws e) =
    Waits-of_push m (handled_reorg w) s (sign_off-Split _ m _ (handled_reorg w) ws ne s e)

-- Once one module's first sign-off is on a block and another's on a reorg, or the other way round,
-- whatever is announced, registered and signed off later: the block number stays, no proposal is ever
-- taken off, and the two modules' first sign-offs stay.
pub split_modules_wait :
    {i j : ℕ} {a b : SignOffState} {g h : GlobalBlockSync}
    → same_sign_off a b ≡ false
    → Split i j a b g
    → Reach g h
    → Waits i j a b g h
split_modules_wait {g = g} ne s here =
    Waits-of_same [] s refl refl (sym (append-nil g.pending_state))
split_modules_wait {g = g} ne s (next r st) =
    let v = split_modules_wait ne s r in
    let w = Step-Waits ne v.split st in
    record {
      split = w.split;
      number = w.number ∙ v.number;
      added = v.added ++ w.added;
      proposals =
          w.proposals
          ∙ ap (λ x. x ++ w.added) v.proposals
          ∙ append_assoc g.pending_state v.added w.added;
    }
