-- ===== src/BlockSync/Progress.antt =====
-- One sign-off of each module of BlockSync on a new block.
use appsec_seq.Base.{
  ℕ, ◌≡◌, refl, true, false, ◌||◌, List, [], ◌∷◌, ◌++◌, Option, Outcome, returns, ◌>>=◌,
  if◌then◌else◌, ==_iff, elem, Distinct, All, All-imp, arith,
}
use appsec_seq.Base.Maps.{Map}
use appsec_seq.BlockSync.{
  GlobalBlockSync, GlobalBlockState, pending_progression, SignOffState, ready_for_next_block,
  same_sign_off, proper_proposal, push_sign_off, all_front, pop_each, transition, sign_off,
  sign_off_on_block, try_wake_task,
}

-- The modules `ks` once those of `done` have signed off with `c`.
abbrev pub queues : SignOffState → List ℕ → List ℕ → Map ℕ (List SignOffState)
queues c done [] = []
queues c done (k ∷ ks) = (k, if elem k done then c ∷ [] else []) ∷ queues c done ks

-- One sign-off after the other; the wakers are collected.
pub sign_each : GlobalBlockSync → List ℕ → ℕ → Option ℕ → Outcome GlobalBlockSync
sign_each g [] n w = returns g
sign_each g (m ∷ ms) n w = do r ← sign_off_on_block g m n w; sign_each r.0 ms n w

push-queues :
    (c : SignOffState) (done : List ℕ) (m : ℕ) (ks : List ℕ)
    → elem m done ≡ false
    → push_sign_off m c (queues c done ks) ≡ queues c (m ∷ done) ks
unfolding push_sign_off
push-queues c done m [] a = refl
push-queues c done m (k ∷ ks) a = ground (arith, push-queues c done m ks a, ==_iff k m)

-- Every module of the list has signed off.
abbrev AllDone : List ℕ → List ℕ → Type 0
AllDone done = All (λ k. elem k done ≡ true)

all_front-queues :
    (n : Option ℕ) (done ks : List ℕ)
    → AllDone done ks
    → all_front (ready_for_next_block n) (queues (ready_for_next_block n) done ks) ≡ true
unfolding all_front same_sign_off
all_front-queues n done [] a = refl
all_front-queues n done (k ∷ ks) a = ground (arith, all_front-queues n done ks a.1)

-- A module that has not signed off yet holds the others up.
all_front-queues_waits :
    (n : Option ℕ) (done ks : List ℕ) (k : ℕ)
    → elem k ks ≡ true
    → elem k done ≡ false
    → all_front (ready_for_next_block n) (queues (ready_for_next_block n) done ks) ≡ false
unfolding all_front
all_front-queues_waits n done [] k i o = cc
all_front-queues_waits n done (j ∷ ks) k i o =
    ground (arith, all_front-queues_waits n done ks k, ==_iff j k)

pop_each-queues :
    (c : SignOffState) (done ks : List ℕ)
    → AllDone done ks
    → (ws : List ℕ) × (pop_each (queues c done ks) ≡ returns (queues c [] ks, ws))
unfolding pop_each
pop_each-queues c done [] a = ([], refl)
pop_each-queues c done (k ∷ ks) a =
    let (ws, e) = pop_each-queues c done ks a.1 in
    (try_wake_task c ++ ws, rw (a.0, pop_each) (rw e refl))

proper_first :
    (g : GlobalBlockSync) (n : ℕ) (ps : List GlobalBlockState)
    → g.pending_state ≡ pending_progression n ∷ ps
    → proper_proposal g (pending_progression n) ≡ true
unfolding proper_proposal
proper_first g n ps e = ground (arith, ==_iff n n)

abbrev pub after_block :
    GlobalBlockSync → ℕ → List GlobalBlockState → Map ℕ (List SignOffState) → GlobalBlockSync
after_block g n ps ms = record g { pending_state = ps; block_number = n; registered_modules = ms }

sign_last :
    (g : GlobalBlockSync) (n m : ℕ) (w : Option ℕ) (ps : List GlobalBlockState) (done ks : List ℕ)
    → let c = ready_for_next_block w in
      g.pending_state ≡ pending_progression n ∷ ps
      → g.registered_modules ≡ queues c done ks
      → elem m done ≡ false
      → AllDone (m ∷ done) ks
      → (ws : List ℕ) × (sign_off_on_block g m n w
          ≡ returns (after_block g n ps (queues c [] ks), ws))
unfolding sign_off_on_block sign_off transition
sign_last g n m w ps done ks e r fresh all =
    let c = ready_for_next_block w in
    let (ws, q) = pop_each-queues c (m ∷ done) ks all in
    (
      ws,
      ground (
        arith,
        proper_first g n ps e,
        push-queues c done m ks fresh,
        all_front-queues w (m ∷ done) ks all,
        q,
      ),
    )

sign_more :
    (g : GlobalBlockSync) (n m : ℕ) (w : Option ℕ) (ps : List GlobalBlockState) (done ks : List ℕ)
    (k : ℕ)
    → let c = ready_for_next_block w in
      g.pending_state ≡ pending_progression n ∷ ps
      → g.registered_modules ≡ queues c done ks
      → elem m done ≡ false
      → elem k ks ≡ true
      → elem k (m ∷ done) ≡ false
      → sign_off_on_block g m n w
        ≡ returns (record g { registered_modules = queues c (m ∷ done) ks }, [])
unfolding sign_off_on_block sign_off
sign_more g n m w ps done ks k e r fresh i o =
    let c = ready_for_next_block w in
    ground (
      arith,
      proper_first g n ps e,
      push-queues c done m ks fresh,
      all_front-queues_waits w (m ∷ done) ks k i o,
    )

-- The modules that still sign are registered, have not signed yet, and are all that is missing.
record Remaining (done ks ms : List ℕ) : Type 0 where
  distinct : Distinct ms
  fresh : All (λ k. elem k done ≡ false) ms
  member : All (λ k. elem k ks ≡ true) ms
  contains : All (λ k. (elem k done || elem k ms) ≡ true) ks

Remaining-next :
    (done ks : List ℕ) (m : ℕ) (ms : List ℕ)
    → Remaining done ks (m ∷ ms)
    → Remaining (m ∷ done) ks ms
Remaining-next done ks m ms r = record {
  distinct = r.distinct.1;
  fresh = not_done ms r.distinct.0 r.fresh.1;
  member = r.member.1;
  contains = All-imp ks (λ k e. ground arith) r.contains;
}
  where
    not_done :
        (ks : List ℕ)
        → elem m ks ≡ false
        → All (λ k. elem k done ≡ false) ks
        → All (λ k. elem k (m ∷ done) ≡ false) ks
    not_done [] a f = tt
    not_done (k ∷ ks) a f = (ground (arith, f.0, ==_iff m k), not_done ks (ground arith) f.1)

sign_each-Remaining :
    (g : GlobalBlockSync) (n : ℕ) (w : Option ℕ) (ps : List GlobalBlockState) (done ks : List ℕ)
    (m : ℕ) (ms : List ℕ)
    → g.pending_state ≡ pending_progression n ∷ ps
    → g.registered_modules ≡ queues (ready_for_next_block w) done ks
    → Remaining done ks (m ∷ ms)
    → sign_each g (m ∷ ms) n w
      ≡ returns (after_block g n ps (queues (ready_for_next_block w) [] ks))
unfolding sign_each
sign_each-Remaining g n w ps done ks m [] e q r =
    let (ws, f) =
      sign_last g n m w ps done ks e q r.fresh.0 (All-imp ks (λ k h. ground arith) r.contains) in
    rw f refl
sign_each-Remaining g n w ps done ks m (k ∷ ms) e q r =
    let rest = Remaining-next done ks m (k ∷ ms) r in
    rw (sign_more g n m w ps done ks k e q r.fresh.0 rest.member.0 rest.fresh.0) (
      sign_each-Remaining
        (record g { registered_modules = queues (ready_for_next_block w) (m ∷ done) ks }) n w ps
        (m ∷ done) ks k ms e refl rest)

-- A new block is the first proposal and no module has a sign-off noted. When each module signs off on
-- the block once, in whatever order, no call panics, the block becomes the current one, its proposal is
-- taken off, and no sign-off is left over for what follows.
pub all_sign_off :
    (g : GlobalBlockSync) (n : ℕ) (w : Option ℕ) (ps : List GlobalBlockState) (ks : List ℕ) (m : ℕ)
    (ms : List ℕ)
    → g.pending_state ≡ pending_progression n ∷ ps
    → g.registered_modules ≡ queues (ready_for_next_block w) [] ks
    → Distinct (m ∷ ms)
    → All (λ k. elem k ks ≡ true) (m ∷ ms)
    → All (λ k. elem k (m ∷ ms) ≡ true) ks
    → sign_each g (m ∷ ms) n w
      ≡ returns (after_block g n ps (queues (ready_for_next_block w) [] ks))
all_sign_off g n w ps ks m ms e q d i c =
    sign_each-Remaining g n w ps [] ks m ms e q
      (record { distinct = d; fresh = All-imp (m ∷ ms) (λ k h. refl) i; member = i; contains = c })
