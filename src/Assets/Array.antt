-- ===== src/Assets/Array.antt =====
-- angstrom-main/crates/types/src/contract_payloads/asset/mod.rs: the tokens of a bundle in an array,
-- and the place of each in it. The sort is an insertion sort: the addresses are distinct, so that
-- every sort by them gives the same array.
pub mod Places
use appsec_seq.Base.{
  ℕ, suc, zero, ◌+◌, List, [], ◌∷◌, ◌++◌, Option, none, some, if◌then◌else◌, leb, length, Bool,
  true, false,
}
use appsec_seq.Base.Maps.{Map, nat_eq, get, insert}

pub record Asset : Type 0 where
  pub addr : ℕ
  pub save : ℕ
  pub take : ℕ
  pub settle : ℕ

pub record AssetArray : Type 0 where
  pub assets : List Asset
  pub assets_idx : Map ℕ ℕ

unfoldable pub new : AssetArray
new = record { assets = []; assets_idx = [] }

-- `self.assets.get(idx)`
unfoldable pub nth : ℕ → List Asset → Option Asset
nth n [] = none
nth zero (a ∷ rest) = some a
nth (suc n) (a ∷ rest) = nth n rest

abbrev pub addr_or_default : Option Asset → ℕ
addr_or_default none = 0
addr_or_default (some a) = a.addr

unfoldable pub get_asset_addr : AssetArray → ℕ → ℕ
unfolding nth
get_asset_addr s idx = addr_or_default (nth idx s.assets)

unfoldable pub insert_sorted : Asset → List Asset → List Asset
insert_sorted a [] = a ∷ []
insert_sorted a (b ∷ bs) =
    let after = insert_sorted a bs in if leb a.addr b.addr then a ∷ b ∷ bs else b ∷ after

unfoldable pub sort_by_addr : List Asset → List Asset
unfolding insert_sorted
sort_by_addr [] = []
sort_by_addr (a ∷ rest) = insert_sorted a (sort_by_addr rest)

-- The places from a first one on.
unfoldable pub enumerate : ℕ → List Asset → Map ℕ ℕ → Map ℕ ℕ
enumerate i [] m = m
enumerate i (a ∷ rest) m = enumerate (suc i) rest (insert a.addr i m)

unfoldable pub order_assets_properly : AssetArray → AssetArray
unfolding sort_by_addr enumerate
order_assets_properly s =
    let sorted = sort_by_addr s.assets in
    record { assets = sorted; assets_idx = enumerate 0 sorted s.assets_idx }

unfoldable pub fresh_asset : ℕ → Asset
fresh_asset addr = record { addr = addr; save = 0; take = 0; settle = 0 }

unfoldable pub add_or_get_asset_idx : AssetArray → ℕ → AssetArray × ℕ
unfolding fresh_asset
add_or_get_asset_idx s asset = elim (get asset s.assets_idx) [
  | some i ↦ (s, i)
  | none ↦ (
    record {
      assets = s.assets ++ fresh_asset asset ∷ [];
      assets_idx = insert asset (length s.assets) s.assets_idx;
    },
    length s.assets,
  )
]

unfoldable pub get_asset_array : AssetArray → List Asset
get_asset_array s = s.assets
