-- ===== src/Assets/Builder.antt =====
-- angstrom-main/crates/types/src/contract_payloads/asset/builder.rs: the books of the four stages of
-- a bundle, and the array of tokens that the contract is given.
use appsec_seq.Base.{ℕ, List, none, some, map}
use appsec_seq.Assets.Stage
use appsec_seq.Assets.Stage.{StageTracker}
use appsec_seq.Assets.Array
use appsec_seq.Assets.Array.{Asset, AssetArray}

pub data AssetBuilderStage : Type 0 where
  swap top_of_block user_order reward : AssetBuilderStage

pub record AssetBuilder : Type 0 where
  pub swaps : StageTracker
  pub rewards : StageTracker
  pub top_of_block_orders : StageTracker
  pub user_orders : StageTracker
  pub assets : AssetArray

unfoldable pub new : AssetBuilder
new = record {
  swaps = Stage.new;
  rewards = Stage.new;
  top_of_block_orders = Stage.new;
  user_orders = Stage.new;
  assets = Array.new;
}

-- `get_stage(..)` with a change of what it gives.
unfoldable pub with_stage :
    AssetBuilder → AssetBuilderStage → (StageTracker → StageTracker) → AssetBuilder
with_stage b swap f = record b { swaps = f b.swaps }
with_stage b reward f = record b { rewards = f b.rewards }
with_stage b top_of_block f = record b { top_of_block_orders = f b.top_of_block_orders }
with_stage b user_order f = record b { user_orders = f b.user_orders }

unfoldable pub order_assets_properly : AssetBuilder → AssetBuilder
order_assets_properly b = record b { assets = Array.order_assets_properly b.assets }

unfoldable pub uniswap_swap : AssetBuilder → AssetBuilderStage → ℕ → ℕ → ℕ → ℕ → AssetBuilder
unfolding with_stage
uniswap_swap b stage asset_in asset_out quantity_in quantity_out =
    let asset_in_addr = Array.get_asset_addr b.assets asset_in in
    let asset_out_addr = Array.get_asset_addr b.assets asset_out in
    with_stage b stage
      (λ s. Stage.uniswap_swap s asset_in_addr asset_out_addr quantity_in quantity_out)

unfoldable pub uniswap_swap_raw : AssetBuilder → AssetBuilderStage → ℕ → ℕ → ℕ → ℕ → AssetBuilder
uniswap_swap_raw b stage asset_in asset_out quantity_in quantity_out =
    with_stage b stage (λ s. Stage.uniswap_swap s asset_in asset_out quantity_in quantity_out)

unfoldable pub external_swap : AssetBuilder → AssetBuilderStage → ℕ → ℕ → ℕ → ℕ → AssetBuilder
external_swap b stage asset_in asset_out quantity_in quantity_out =
    with_stage b stage (λ s. Stage.external_swap s asset_in asset_out quantity_in quantity_out)

unfoldable pub add_gas_fee : AssetBuilder → AssetBuilderStage → ℕ → ℕ → AssetBuilder
add_gas_fee b stage asset qty = with_stage b stage (λ s. Stage.add_gas_fee s asset qty)

unfoldable pub allocate : AssetBuilder → AssetBuilderStage → ℕ → ℕ → AssetBuilder
allocate b stage asset quantity = with_stage b stage (λ s. Stage.allocate s asset quantity)

unfoldable pub tribute : AssetBuilder → AssetBuilderStage → ℕ → ℕ → AssetBuilder
tribute b stage asset quantity = with_stage b stage (λ s. Stage.tribute s asset quantity)

unfoldable pub add_or_get_asset : AssetBuilder → ℕ → AssetBuilder × ℕ
add_or_get_asset b asset =
    let (a, i) = Array.add_or_get_asset_idx b.assets asset in (record b { assets = a }, i)

unfoldable pub combined : AssetBuilder → StageTracker
combined b = Stage.collect_extra (
    Stage.and_then (Stage.and_then (Stage.and_then b.swaps b.rewards) b.top_of_block_orders)
      b.user_orders)

-- The entry of a token, with its books.
unfoldable pub filled_in : StageTracker → Asset → Asset
filled_in s asset = elim (Stage.get_asset s asset.addr) [
  | none ↦ asset
  | some t ↦ record asset { take = t.take; settle = t.settle; save = t.save }
]

unfoldable pub get_asset_array : AssetBuilder → List Asset
unfolding combined filled_in
get_asset_array b = map (filled_in (combined b)) (Array.get_asset_array b.assets)
