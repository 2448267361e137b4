-- ===== src/Assets/Stage.antt =====
-- angstrom-main/crates/types/src/contract_payloads/asset/state.rs: a stage of the bundle, with the
-- books of each token.
use appsec_seq.Base.{ℕ, ◌-◌, [], ◌∷◌, Option, none, some, add_u128, ◌≡◌, refl, arith, ==_iff}
use appsec_seq.Base.Maps.{Map, nat_eq, get, insert, get-insert, IsMap, get_of_Absent}
use appsec_seq.Assets
use appsec_seq.Assets.{BorrowStateTracker}

pub record StageTracker : Type 0 where
  pub map : Map ℕ BorrowStateTracker

unfoldable pub new : StageTracker
new = record { map = [] }

unfoldable pub get_asset : StageTracker → ℕ → Option BorrowStateTracker
get_asset s asset = get asset s.map

abbrev pub or_new : Option BorrowStateTracker → BorrowStateTracker
or_new none = Assets.new
or_new (some t) = t

-- `get_state(..)` with a change of what it gives.
unfoldable pub with_state :
    StageTracker → ℕ → (BorrowStateTracker → BorrowStateTracker) → StageTracker
with_state s addr f = record { map = insert addr (f (or_new (get addr s.map))) s.map }

unfoldable pub add_gas_fee : StageTracker → ℕ → ℕ → StageTracker
add_gas_fee s asset qty = with_state s asset (λ t. Assets.add_gas_fee t qty)

unfoldable pub uniswap_swap : StageTracker → ℕ → ℕ → ℕ → ℕ → StageTracker
uniswap_swap s asset_in asset_out quantity_in quantity_out =
    with_state (with_state s asset_in (λ t. Assets.owe t quantity_in)) asset_out
      (λ t. Assets.take_in t quantity_out)

unfoldable pub external_swap : StageTracker → ℕ → ℕ → ℕ → ℕ → StageTracker
external_swap s asset_in asset_out quantity_in quantity_out =
    with_state (with_state s asset_in (λ t. Assets.recieve t quantity_in)) asset_out
      (λ t. Assets.allocate t quantity_out)

unfoldable pub allocate : StageTracker → ℕ → ℕ → StageTracker
allocate s asset q = with_state s asset (λ t. Assets.allocate t q)

unfoldable pub tribute : StageTracker → ℕ → ℕ → StageTracker
tribute s asset q = with_state s asset (λ t. Assets.reward t q)

-- `and_modify(..).or_insert_with(..)`
abbrev pub combine : Option BorrowStateTracker → BorrowStateTracker → BorrowStateTracker
combine none u = u
combine (some t) u = Assets.and_then t u

unfoldable pub merge :
    Map ℕ BorrowStateTracker → Map ℕ BorrowStateTracker → Map ℕ BorrowStateTracker
merge m [] = m
merge m ((addr, u) ∷ other) = merge (insert addr (combine (get addr m) u) m) other

unfoldable pub and_then : StageTracker → StageTracker → StageTracker
unfolding merge
and_then s other = record { map = merge s.map other.map }

unfoldable pub collected : BorrowStateTracker → BorrowStateTracker
collected t = record {
  take = t.take;
  contract_liquid = 0;
  save = add_u128 t.save (t.contract_liquid - t.settle);
  settle = t.settle;
}

unfoldable pub collect_each : Map ℕ BorrowStateTracker → Map ℕ BorrowStateTracker
unfolding collected
collect_each [] = []
collect_each ((addr, t) ∷ m) = (addr, collected t) ∷ collect_each m

unfoldable pub collect_extra : StageTracker → StageTracker
unfolding collect_each
collect_extra s = record { map = collect_each s.map }

-- The books of a token in two stages.
abbrev pub both : Option BorrowStateTracker → Option BorrowStateTracker → Option BorrowStateTracker
both t none = t
both t (some u) = some (combine t u)

get-merge :
    (a : ℕ) (m other : Map ℕ BorrowStateTracker)
    → IsMap other
    → get a (merge m other) ≡ both (get a m) (get a other)
unfolding merge get
get-merge a m [] d = refl
get-merge a m ((k, u) ∷ other) d = ground (
  arith,
  ==_iff k a,
  get-merge a (insert k (combine (get k m) u) m) other d.1,
  get-insert a k (combine (get k m) u) m,
  get_of_Absent k other d.0,
)

-- Token by token, the stages are combined as their books are, and a token that only one of them has
-- keeps its books.
pub get_asset-and_then :
    (s t : StageTracker) (a : ℕ)
    → IsMap t.map
    → get_asset (and_then s t) a ≡ both (get_asset s a) (get_asset t a)
unfolding get_asset and_then
get_asset-and_then s t a d = get-merge a s.map t.map d

get-collect_each :
    (a : ℕ) (m : Map ℕ BorrowStateTracker)
    → get a (collect_each m) ≡ (elim (get a m) [ none ↦ none | some t ↦ some (collected t) ])
unfolding collect_each get
get-collect_each a [] = refl
get-collect_each a ((k, t) ∷ m) = ground (arith, get-collect_each a m)

-- The collection keeps what is taken and owed, leaves nothing on hand, and saves what is left over.
pub get_asset-collect_extra :
    (s : StageTracker) (a : ℕ)
    → get_asset (collect_extra s) a
      ≡ (elim (get_asset s a) [ none ↦ none | some t ↦ some (collected t) ])
unfolding get_asset collect_extra
get_asset-collect_extra s a = get-collect_each a s.map
