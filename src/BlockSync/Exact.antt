-- ===== src/BlockSync/Exact.antt =====
-- What one sign-off does.
use appsec_seq.Base.{
  ℕ, ◌≡◌, refl, true, false, List, [], ◌∷◌, ◌++◌, Option, none, ◌∙◌, some, returns, if◌then◌else◌,
  ◌==◌, ◌⊎◌, inl, inr, Bool, Bool-cases, arith, ==_iff, Option-cases,
}
use appsec_seq.Base.Maps.{Map, nat_eq, get, change, IsMap, Absent, get_of_Absent}
use appsec_seq.BlockSync.{
  GlobalBlockSync, GlobalBlockState, pending_progression, processing, pending_reorg, same_sign_off,
  handled_reorg, SignOffState, ready_for_next_block, proper_proposal, push_sign_off, fronts,
  all_front, pop_each, block_after, try_wake_task, transition, sign_off, sign_off_on_block,
}

-- The queues once each has given its first sign-off.
abbrev pub tail : List SignOffState → List SignOffState
tail [] = []
tail (c ∷ q) = q

pub get-push_sign_off :
    (m : ℕ) (c : SignOffState) (k : ℕ) (ms : Map ℕ (List SignOffState))
    → get k (push_sign_off m c ms) ≡ change (λ q. if k == m then q ++ c ∷ [] else q) (get k ms)
unfolding get push_sign_off
get-push_sign_off m c k [] = refl
get-push_sign_off m c k ((j, q) ∷ ms) = ground (arith, get-push_sign_off m c k ms)

pub all_front-get :
    (c : SignOffState) (k : ℕ) (ms : Map ℕ (List SignOffState)) (q : List SignOffState)
    → all_front c ms ≡ true
    → get k ms ≡ some q
    → fronts c q ≡ true
unfolding get all_front
all_front-get c k [] q a h = cc
all_front-get c k ((j, p) ∷ ms) q a h = ground (arith, all_front-get c k ms q)

record Popped (ms rs : Map ℕ (List SignOffState)) : Type 0 where
  queues : (k : ℕ) → get k rs ≡ change tail (get k ms)

pop_each-Popped :
    (c : SignOffState) (ms : Map ℕ (List SignOffState))
    → all_front c ms ≡ true
    → (r : Map ℕ (List SignOffState) × List ℕ) × (pop_each ms ≡ returns r) × Popped ms r.0
unfolding all_front pop_each get
pop_each-Popped c [] a = (([], []), refl, record { queues = λ k. refl })
pop_each-Popped c ((j, []) ∷ ms) a = absurd (ground arith)
pop_each-Popped c ((j, d ∷ q) ∷ ms) a =
    let (r, e, p) = pop_each-Popped c ms (ground arith) in
    (
      ((j, q) ∷ r.0, try_wake_task d ++ r.1),
      rw e refl,
      record { queues = λ k. ground (arith, p.queues k) },
    )

-- The module's own sign-off is counted, whatever it is.
abbrev pub pushed : GlobalBlockSync → ℕ → SignOffState → Map ℕ (List SignOffState)
pushed g m c = push_sign_off m c g.registered_modules

pub sign_off_exact :
    (next : GlobalBlockState → ℕ → ℕ) (g : GlobalBlockSync) (m : ℕ) (p q : GlobalBlockState)
    (ps : List GlobalBlockState) (c : SignOffState)
    → g.pending_state ≡ p ∷ ps
    → proper_proposal g q ≡ true
    → (h : GlobalBlockSync) × (ws : List ℕ) × (sign_off next g m q c ≡ returns (h, ws))
      × ((all_front c (pushed g m c) ≡ false)
            × (h.pending_state ≡ p ∷ ps)
            × (h.block_number ≡ g.block_number)
            × (h.registered_modules ≡ pushed g m c)
          ⊎ (all_front c (pushed g m c) ≡ true)
            × (h.pending_state ≡ ps)
            × (h.block_number ≡ next p g.block_number)
            × ((k : ℕ) → get k h.registered_modules ≡ change tail (get k (pushed g m c))))
unfolding sign_off transition
sign_off_exact next g m p q ps c e proper =
    elim (Bool-cases (all_front c (push_sign_off m c g.registered_modules))) [
      | inr more ↦ (
        record g { registered_modules = push_sign_off m c g.registered_modules },
        [],
        ground arith,
        inl (more, e, refl, refl),
      )
      | inl last ↦
          let (r, f, v) = pop_each-Popped c (push_sign_off m c g.registered_modules) last in
          (
            record g {
              pending_state = ps;
              block_number = next p g.block_number;
              registered_modules = r.0;
            },
            r.1,
            ground arith,
            inr (last, refl, refl, v.queues),
          )
    ]

-- Whether the first sign-off of a queue is one on a block.
abbrev pub starts_with_block : List SignOffState → Bool
starts_with_block [] = false
starts_with_block (ready_for_next_block w ∷ q) = true
starts_with_block (handled_reorg w ∷ q) = false

-- The queue of a module once another one, or it itself, has signed off.
abbrev pub with_sign_off : ℕ → SignOffState → ℕ → List SignOffState → List SignOffState
with_sign_off m c k q = if k == m then q ++ c ∷ [] else q

-- Whether a registered module's first sign-off is one on a block once that sign-off is added.
abbrev pub module_ready : ℕ → SignOffState → ℕ → Option (List SignOffState) → Bool
module_ready m c k none = true
module_ready m c k (some q) = starts_with_block (with_sign_off m c k q)

-- The number of a new block, and the old one for any other proposal.
abbrev pub number_of : GlobalBlockState → ℕ → ℕ
number_of (pending_progression b) old = b
number_of (processing b) old = old
number_of (pending_reorg a b) old = old

block_after-number_of : (p : GlobalBlockState) (old : ℕ) → block_after p old ≡ number_of p old
unfolding block_after
block_after-number_of (pending_progression b) old = refl
block_after-number_of (processing b) old = refl
block_after-number_of (pending_reorg a b) old = refl

fronts-block :
    (w : Option ℕ) (q : List SignOffState) → fronts (ready_for_next_block w) q ≡ starts_with_block q
unfolding same_sign_off
fronts-block w [] = refl
fronts-block w (ready_for_next_block v ∷ q) = refl
fronts-block w (handled_reorg v ∷ q) = refl

-- If not all queues start with a sign-off, there is a module whose queue does not.
one_waits :
    (c : SignOffState) (ms : Map ℕ (List SignOffState))
    → IsMap ms
    → all_front c ms ≡ false
    → (k : ℕ) × (q : List SignOffState) × (get k ms ≡ some q) × (fronts c q ≡ false)
unfolding all_front get
one_waits c [] d a = absurd (ground arith)
one_waits c ((j, q) ∷ ms) d a = elim (Bool-cases (fronts c q)) [
  | inr f ↦ (j, q, ground (arith, ==_iff j j), f)
  | inl t ↦
      let (k, p, e, f) = one_waits c ms d.1 (ground arith) in
      (k, p, ground (arith, get_of_Absent j ms d.0, ==_iff j k), f)
]

push-Absent :
    (j m : ℕ) (c : SignOffState) (ms : Map ℕ (List SignOffState))
    → Absent j ms
    → Absent j (push_sign_off m c ms)
unfolding push_sign_off
push-Absent j m c [] a = tt
push-Absent j m c ((k, q) ∷ ms) a = (a.0, push-Absent j m c ms a.1)

push-IsMap :
    (m : ℕ) (c : SignOffState) (ms : Map ℕ (List SignOffState))
    → IsMap ms
    → IsMap (push_sign_off m c ms)
unfolding push_sign_off
push-IsMap m c [] d = tt
push-IsMap m c ((j, q) ∷ ms) d = (push-Absent j m c ms d.0, push-IsMap m c ms d.1)

all_ready :
    (g : GlobalBlockSync) (m : ℕ) (w : Option ℕ) (i : ℕ)
    → all_front (ready_for_next_block w) (pushed g m (ready_for_next_block w)) ≡ true
    → module_ready m (ready_for_next_block w) i (get i g.registered_modules) ≡ true
all_ready g m w i last = elim (Option-cases (get i g.registered_modules)) [
  | inl e ↦ ground arith
  | inr (q, e) ↦
      let c = ready_for_next_block w in
      let p = with_sign_off m c i q in
      ground (
        arith,
        all_front-get c i (pushed g m c) p last
            (ground (arith, get-push_sign_off m c i g.registered_modules)),
        fronts-block w p,
      )
]

-- A sign-off on a block that is among the proposals returns. Either some module, the new sign-off
-- counted, has none or its first one is not one on a block; then the new one is only added to its module's
-- queue, and the proposals and the block number stay. Or each module's first sign-off is one on a block;
-- then the first proposal, whichever it is, is taken off, the block number is the one of this proposal if
-- it is for a new block and stays if it is not, and each module's first sign-off is taken off.
pub sign_off_on_block_exact :
    (g : GlobalBlockSync) (m n : ℕ) (p : GlobalBlockState) (ps : List GlobalBlockState)
    (w : Option ℕ)
    → IsMap g.registered_modules
    → g.pending_state ≡ p ∷ ps
    → proper_proposal g (pending_progression n) ≡ true
    → let signed = with_sign_off m (ready_for_next_block w) in
      (h : GlobalBlockSync) × (ws : List ℕ) × (sign_off_on_block g m n w ≡ returns (h, ws))
      × (((i : ℕ) × (module_ready m (ready_for_next_block w) i (get i g.registered_modules)
                ≡ false))
            × (h.pending_state ≡ p ∷ ps)
            × (h.block_number ≡ g.block_number)
            × ((k : ℕ)
                → get k h.registered_modules ≡ change (signed k) (get k g.registered_modules))
          ⊎ ((i : ℕ)
              → module_ready m (ready_for_next_block w) i (get i g.registered_modules) ≡ true)
            × (h.pending_state ≡ ps)
            × (h.block_number ≡ number_of p g.block_number)
            × ((k : ℕ)
                → get k h.registered_modules
                  ≡ change (λ q. tail (signed k q)) (get k g.registered_modules)))
unfolding sign_off_on_block
sign_off_on_block_exact g m n p ps w d e proper =
    let c = ready_for_next_block w in
    let (h, ws, r, cases) =
      sign_off_exact block_after g m p (pending_progression n) ps c e proper in
    (
      h,
      ws,
      r,
      elim cases [
        | inl (more, left, number, queues) ↦
            let (k, q, found, f) =
              one_waits c (pushed g m c) (push-IsMap m c g.registered_modules d) more in
            inl (
              (k, ground (arith, get-push_sign_off m c k g.registered_modules, fronts-block w q)),
              left,
              number,
              λ j. ground (arith, queues, get-push_sign_off m c j g.registered_modules),
            )
        | inr (last, left, number, queues) ↦ inr (
          (λ i. all_ready g m w i last),
          left,
          number ∙ block_after-number_of p g.block_number,
          λ j. ground (arith, queues j, get-push_sign_off m c j g.registered_modules),
        )
      ],
    )
