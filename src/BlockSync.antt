-- ===== src/BlockSync.antt =====
-- angstrom-main/crates/types/src/block_sync.rs: the modules of a node sign off on each new block and
-- each reorg before the node goes on. A module is named by a number, a waker is a number too, and
-- the calls, which take locks in the source, follow one another. A sign-off gives the wakers that it
-- woke.
pub mod Exact
pub mod Stuck
pub mod Progress
use appsec_seq.Base.{
  ℕ, Bool, true, false, not, ◌&&◌, ◌||◌, List, [], ◌∷◌, ◌++◌, Option, none, some, Outcome, returns,
  panics, ◌>>=◌, if◌then◌else◌, ◌==◌, is_some,
}
use appsec_seq.Base.Maps.{Map, nat_eq, get, insert}

pub data GlobalBlockState : Type 0 where
  processing : ℕ → GlobalBlockState
  -- the first and the last block of an inclusive range
  pending_reorg : ℕ → ℕ → GlobalBlockState
  pending_progression : ℕ → GlobalBlockState

unfoldable pub same_state : GlobalBlockState → GlobalBlockState → Bool
same_state (processing a) (processing b) = a == b
same_state (pending_reorg a b) (pending_reorg c d) = a == c && b == d
same_state (pending_progression a) (pending_progression b) = a == b
same_state _ _ = false

pub data SignOffState : Type 0 where
  ready_for_next_block : Option ℕ → SignOffState
  handled_reorg : Option ℕ → SignOffState

-- Two sign-offs are equal whatever their wakers.
unfoldable pub same_sign_off : SignOffState → SignOffState → Bool
same_sign_off (ready_for_next_block v) (ready_for_next_block w) = true
same_sign_off (handled_reorg v) (handled_reorg w) = true
same_sign_off _ _ = false

abbrev pub wake : Option ℕ → List ℕ
wake none = []
wake (some w) = w ∷ []

unfoldable pub try_wake_task : SignOffState → List ℕ
try_wake_task (ready_for_next_block w) = wake w
try_wake_task (handled_reorg w) = wake w

pub record GlobalBlockSync : Type 0 where
  pub pending_state : List GlobalBlockState
  pub block_number : ℕ
  pub registered_modules : Map ℕ (List SignOffState)
  pub all_modules_registered : Bool

unfoldable pub new : ℕ → GlobalBlockSync
new n = record {
  pending_state = [];
  block_number = n;
  registered_modules = [];
  all_modules_registered = false;
}

unfoldable pub contains : GlobalBlockState → List GlobalBlockState → Bool
unfolding same_state
contains p [] = false
contains p (q ∷ qs) = same_state q p || contains p qs

unfoldable pub proper_proposal : GlobalBlockSync → GlobalBlockState → Bool
unfolding contains
proper_proposal g p = contains p g.pending_state

unfoldable pub clear : GlobalBlockSync → GlobalBlockSync
clear g = record g { pending_state = [] }

unfoldable pub set_block : GlobalBlockSync → ℕ → GlobalBlockSync
set_block g n = record g { block_number = n }

unfoldable pub is_last : GlobalBlockState → List GlobalBlockState → Bool
unfolding same_state
is_last p [] = false
is_last p (q ∷ []) = same_state q p
is_last p (q ∷ r ∷ rs) = is_last p (r ∷ rs)

unfoldable pub new_block : GlobalBlockSync → ℕ → GlobalBlockSync
unfolding is_last
new_block g n =
    if is_last (pending_progression n) g.pending_state
    then g
    else record g { pending_state = g.pending_state ++ pending_progression n ∷ [] }

unfoldable pub reorg : GlobalBlockSync → ℕ → ℕ → GlobalBlockSync
reorg g first last = record g { pending_state = g.pending_state ++ pending_reorg first last ∷ [] }

unfoldable pub finalize_modules : GlobalBlockSync → GlobalBlockSync
finalize_modules g = record g { all_modules_registered = true }

-- `entry(module).and_modify(..)`: a module that is not registered is not added.
unfoldable pub push_sign_off :
    ℕ → SignOffState → Map ℕ (List SignOffState) → Map ℕ (List SignOffState)
push_sign_off m c [] = []
push_sign_off m c ((k, q) ∷ ms) = (k, if k == m then q ++ c ∷ [] else q) ∷ push_sign_off m c ms

abbrev pub fronts : SignOffState → List SignOffState → Bool
fronts c [] = false
fronts c (d ∷ q) = same_sign_off d c

unfoldable pub all_front : SignOffState → Map ℕ (List SignOffState) → Bool
all_front c [] = true
all_front c ((k, q) ∷ ms) = fronts c q && all_front c ms

-- `val.pop_front().unwrap().try_wake_task()` for each module.
unfoldable pub pop_each : Map ℕ (List SignOffState) → Outcome (Map ℕ (List SignOffState) × List ℕ)
unfolding try_wake_task
pop_each [] = returns ([], [])
pop_each ((k, []) ∷ ms) = panics
pop_each ((k, c ∷ q) ∷ ms) = do
  rest ← pop_each ms
  returns ((k, q) ∷ rest.0, try_wake_task c ++ rest.1)

-- The block number once a proposal is handled by sign-offs on a block, and by those on a reorg.
unfoldable pub block_after : GlobalBlockState → ℕ → ℕ
block_after (pending_progression n) old = n
block_after (processing n) old = old
block_after (pending_reorg a b) old = old

-- What follows the last sign-off; `next` is what becomes of the block number.
unfoldable pub transition :
    (GlobalBlockState → ℕ → ℕ)
    → GlobalBlockSync
    → List GlobalBlockState
    → Outcome (GlobalBlockSync × List ℕ)
unfolding pop_each
transition next g [] = returns (g, [])
transition next g (p ∷ ps) = do
  popped ← pop_each g.registered_modules
  returns (
    record g {
      pending_state = ps;
      block_number = next p g.block_number;
      registered_modules = popped.0;
    },
    popped.1,
  )

unfoldable pub sign_off :
    (GlobalBlockState → ℕ → ℕ)
    → GlobalBlockSync
    → ℕ
    → GlobalBlockState
    → SignOffState
    → Outcome (GlobalBlockSync × List ℕ)
unfolding push_sign_off all_front
sign_off next g m proposal check =
    let pushed = record g { registered_modules = push_sign_off m check g.registered_modules } in
    let done = transition next pushed g.pending_state in
    if proper_proposal g proposal
    then if all_front check pushed.registered_modules then done else returns (pushed, [])
    else panics

unfoldable pub sign_off_reorg :
    GlobalBlockSync → ℕ → ℕ → ℕ → Option ℕ → Outcome (GlobalBlockSync × List ℕ)
sign_off_reorg g m first last waker =
    sign_off (λ p old. old) g m (pending_reorg first last) (handled_reorg waker)

unfoldable pub sign_off_on_block :
    GlobalBlockSync → ℕ → ℕ → Option ℕ → Outcome (GlobalBlockSync × List ℕ)
unfolding block_after
sign_off_on_block g m n waker =
    sign_off block_after g m (pending_progression n) (ready_for_next_block waker)

unfoldable pub has_proposal : GlobalBlockSync → Bool
has_proposal g = elim g.pending_state [ [] ↦ false | p ∷ ps ↦ true ]

unfoldable pub can_operate : GlobalBlockSync → Bool
unfolding has_proposal
can_operate g = not (has_proposal g)

unfoldable pub fetch_current_proposal : GlobalBlockSync → Option GlobalBlockState
fetch_current_proposal g = elim g.pending_state [ [] ↦ none | p ∷ ps ↦ some p ]

-- After `finalize_modules` a module is not added; one that is registered twice makes the call panic.
unfoldable pub register : GlobalBlockSync → ℕ → Outcome GlobalBlockSync
register g m =
    if g.all_modules_registered
    then returns g
    else if is_some (get m g.registered_modules)
    then panics
    else returns (record g { registered_modules = insert m [] g.registered_modules })
