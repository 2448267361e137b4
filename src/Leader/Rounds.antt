-- ===== src/Leader/Rounds.antt =====
-- Catching up over several blocks, and asking again.
use appsec_seq.Base.{
  ℕ, zero, suc, ◌+◌, ◌-◌, ◌^◌, ◌<◌, ◌≡◌, refl, sym, ◌∙◌, subst, false, Option, some, Outcome,
  returns, panics, ◌>>=◌, >>=-eq-returns, ◌==◌, sub_u64, arith,
}
use appsec_seq.Leader.{
  WeightedRoundRobin, center_priorities, scale_priorities, proposer_selection, round, rounds,
  same_block, choose_proposer,
}

-- The block number takes no part in a round.
abbrev at_block : ℕ → WeightedRoundRobin → WeightedRoundRobin
at_block b w = record w { block_number = b }

abbrev each : {A B : Type 0} → (A → B) → Outcome A → Outcome B
each f (returns a) = returns (f a)
each f panics = panics

-- A change of the state goes past a chain if it goes past each call.
each-bind :
    {A A' B : Type 0} (f : A → A') (g : B → B) (m : Outcome A) (m' : Outcome A') (k : A → Outcome B)
    (k' : A' → Outcome B)
    → m' ≡ each f m
    → ((a : A) → k' (f a) ≡ each g (k a))
    → (m' >>= k') ≡ each g (m >>= k)
each-bind f g (returns a) m' k k' e h = rw e (h a)
each-bind f g panics m' k k' e h = rw e

center-at_block :
    (b : ℕ) (w : WeightedRoundRobin)
    → center_priorities (at_block b w) ≡ each (at_block b) (center_priorities w)
unfolding center_priorities
center-at_block b w = ground arith

scale-at_block :
    (b : ℕ) (w : WeightedRoundRobin)
    → scale_priorities (at_block b w) ≡ each (at_block b) (scale_priorities w)
unfolding scale_priorities
scale-at_block b w = ground arith

select-at_block :
    (b : ℕ) (w : WeightedRoundRobin)
    → proposer_selection (at_block b w)
      ≡ each (λ (r : WeightedRoundRobin × ℕ). (at_block b r.0, r.1)) (proposer_selection w)
unfolding proposer_selection
select-at_block b w = ground arith

round-at_block :
    (b : ℕ) (w : WeightedRoundRobin) → round (at_block b w) ≡ each (at_block b) (round w)
unfolding round
round-at_block b w =
    each-bind (at_block b) (at_block b) (center_priorities w) (center_priorities (at_block b w)) _ _
      (center-at_block b w)
      λ c.
        each-bind (at_block b) (at_block b) (scale_priorities c) (scale_priorities (at_block b c)) _
          _ (scale-at_block b c)
          λ s.
            each-bind (λ (r : WeightedRoundRobin × ℕ). (at_block b r.0, r.1)) (at_block b)
              (proposer_selection s) (proposer_selection (at_block b s)) _ _ (select-at_block b s)
              λ r. refl

rounds-at_block :
    (b n : ℕ) (w : WeightedRoundRobin) → rounds n (at_block b w) ≡ each (at_block b) (rounds n w)
unfolding rounds
rounds-at_block b zero w = refl
rounds-at_block b (suc n) w =
    each-bind (at_block b) (at_block b) (round w) (round (at_block b w)) _ _ (round-at_block b w)
      λ v. rounds-at_block b n v

-- Rounds done in two parts.
rounds-add :
    (m n : ℕ) (w v : WeightedRoundRobin) → rounds m w ≡ returns v → rounds (m + n) w ≡ rounds n v
unfolding rounds
rounds-add zero n w v e =
    let same : w ≡ v = ground arith in
    let none_left : zero + n ≡ n = omega arith in rw (none_left, same)
rounds-add (suc m) n w v e =
    let (u, first, rest) = >>=-eq-returns (round w) (rounds m) e in
    let one_more : suc m + n ≡ suc (m + n) = omega arith in
    rw one_more (rw (first, rounds) (rounds-add m n u v rest))

round-last_proposer :
    (w v : WeightedRoundRobin) → round w ≡ returns v → (p : ℕ) × (v.last_proposer ≡ some p)
unfolding round
round-last_proposer w v e =
    let (c, _, after_center) = >>=-eq-returns (center_priorities w) _ e in
    let (s, _, after_scale) = >>=-eq-returns (scale_priorities c) _ after_center in
    let (r, _, f) = >>=-eq-returns (proposer_selection s) _ after_scale in (r.1, ground arith)

rounds-last_proposer :
    (n : ℕ) (w v : WeightedRoundRobin)
    → rounds (suc n) w ≡ returns v
    → (p : ℕ) × (v.last_proposer ≡ some p)
unfolding rounds
rounds-last_proposer zero w v e =
    let (u, first, rest) = >>=-eq-returns (round w) (rounds zero) e in
    round-last_proposer w v (ground arith)
rounds-last_proposer (suc n) w v e =
    let (u, first, rest) = >>=-eq-returns (round w) (rounds (suc n)) e in
    rounds-last_proposer n u v rest

-- A later block: as many rounds as there are blocks in between.
choose_later :
    (w : WeightedRoundRobin) (b : ℕ)
    → w.block_number < b
    → b < 2 ^ 64
    → choose_proposer w b ≡ (
        rounds (b - w.block_number) w >>= λ v.
        returns (record v { block_number = b }, v.last_proposer))
unfolding choose_proposer
choose_later w b h k =
    let count : sub_u64 b w.block_number ≡ b - w.block_number = omega arith in
    rw (not_same b w.block_number h, count)
  where
    not_same : (b c : ℕ) → c < b → (b == c) ≡ false
    not_same b c h = ground arith

-- The state after a later block.
later_state :
    (w v : WeightedRoundRobin) (b : ℕ) (leader : Option ℕ)
    → w.block_number < b
    → b < 2 ^ 64
    → choose_proposer w b ≡ returns (v, leader)
    → (u : WeightedRoundRobin) × (rounds (b - w.block_number) w ≡ returns u)
      × (at_block b u ≡ v)
      × (u.last_proposer ≡ leader)
later_state w v b leader h k e =
    let (u, done, last) =
      >>=-eq-returns (rounds (b - w.block_number) w) _ (sym (choose_later w b h k) ∙ e) in
    (u, done, ground arith, ground arith)

abbrev answer : ℕ → WeightedRoundRobin → Outcome (WeightedRoundRobin × Option ℕ)
answer c v = returns (at_block c v, v.last_proposer)

overwritten :
    (b c : ℕ) (m : Outcome WeightedRoundRobin)
    → (each (at_block b) m >>= answer c) ≡ (m >>= answer c)
overwritten b c (returns a) = refl
overwritten b c panics = refl

-- A node that asks for the leader of a block in between and then for a later one is in the same state,
-- with the same leader, as a node that asks for the later one at once: no block that is missed changes
-- who leads.
pub choose_proposer_catch_up :
    (w v : WeightedRoundRobin) (b c : ℕ) (leader : Option ℕ)
    → w.block_number < b
    → b < c
    → c < 2 ^ 64
    → choose_proposer w b ≡ returns (v, leader)
    → choose_proposer v c ≡ choose_proposer w c
choose_proposer_catch_up w v b c leader h k l e =
    let (u, done, same, _) = later_state w v b leader h (omega arith) e in
    let split : c - w.block_number ≡ (b - w.block_number) + (c - b) = omega arith in
    let now : choose_proposer w c ≡ (rounds (c - b) u >>= answer c) =
      choose_later w c (omega arith) l
      ∙ rw (split, rounds-add (b - w.block_number) (c - b) w u done) refl in
    let after : choose_proposer (at_block b u) c ≡ choose_proposer w c =
      choose_later (at_block b u) c k l
      ∙ rw (rounds-at_block b (c - b) u) (overwritten b c (rounds (c - b) u))
      ∙ sym now in
    subst (λ x. choose_proposer x c ≡ choose_proposer w c) same after

-- Asked twice for one block, the answer is already there.
same_block_again :
    (v : WeightedRoundRobin) (leader : Option ℕ) (p : ℕ)
    → v.last_proposer ≡ some p
    → v.last_proposer ≡ leader
    → choose_proposer v v.block_number ≡ returns (v, leader)
unfolding choose_proposer same_block
same_block_again v leader p e f = ground arith

-- After the leader of a later block is chosen, asking again for that block gives the same answer and changes nothing.
pub choose_proposer_again :
    (w v : WeightedRoundRobin) (b : ℕ) (leader : Option ℕ)
    → w.block_number < b
    → b < 2 ^ 64
    → choose_proposer w b ≡ returns (v, leader)
    → choose_proposer v b ≡ returns (v, leader)
choose_proposer_again w v b leader h k e =
    let (u, done, same, last) = later_state w v b leader h k e in
    let one_more : b - w.block_number ≡ suc (b - w.block_number - 1) = omega arith in
    let (p, named) = rounds-last_proposer (b - w.block_number - 1) w u (rw (sym one_more) done) in
    subst (λ x. choose_proposer x b ≡ returns (x, leader)) same
      (same_block_again (at_block b u) leader p named last)
