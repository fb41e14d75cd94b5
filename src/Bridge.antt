-- ===== src/Bridge.antt =====
-- src/lib/bridge-api.ts and src/lib/stablecoin-api.ts: calls of the data layer, which answer with fixed
-- values where no node does. an amount is an argument
-- as JSON writes it, and as `String(amount)` does.
pub mod Fallback
use resistance_network.Common.{ℕ, String, Bool, true, false, List, [], ◌∷◌, Text, codes}
use resistance_network.Json.{Json, Decimal, num, str, obj, field, end, Request, Reply}
use resistance_network.Api.{State}
use resistance_network.Api.Reads.{read}

pub record BridgeReserve : Type 0 where
  pub chain : String
  pub locked : String
  pub minted : String
  pub burned : String
  pub circulating : String

pub record BridgeReserves : Type 0 where
  pub reserves : List BridgeReserve
  pub paused : Bool
  pub pending_ops : ℕ
  pub completed_ops : ℕ

pub record BridgeOpResult : Type 0 where
  pub op_id : Text
  pub direction : Text
  pub status : Text
  pub chain : Text
  pub amount : Text
  pub wrapped_symbol : Text

pub record WrappedBalance : Type 0 where
  pub chain : Text
  pub symbol : Text
  pub balance : Text

pub record BridgeOpHistory : Type 0 where
  pub op_id : Text
  pub direction : Text
  pub chain : Text
  pub amount : Text
  pub signatures : ℕ
  pub executed : Bool
  pub height : ℕ

pub record BridgeOps : Type 0 where
  pub pending : List BridgeOpHistory
  pub completed : List BridgeOpHistory

abbrev pub empty_reserve : String → BridgeReserve
empty_reserve chain = record {
  chain = chain;
  locked = "0";
  minted = "0";
  burned = "0";
  circulating = "0";
}

abbrev pub mock_reserves : BridgeReserves
mock_reserves = record {
  reserves =
      empty_reserve "Bitcoin"
      ∷ empty_reserve "Ethereum"
      ∷ empty_reserve "Solana"
      ∷ empty_reserve "Bsc"
      ∷ empty_reserve "Avalanche"
      ∷ [];
  paused = false;
  pending_ops = 0;
  completed_ops = 0;
}

unfoldable pub get_bridge_reserves :
    (Request → Reply BridgeReserves) → State → State × BridgeReserves
get_bridge_reserves net s =
    read net (codes "rstn_getBridgeReserves") [] mock_reserves mock_reserves s

abbrev pub mock_op : Text → Text → Text → BridgeOpResult
mock_op direction chain amount = record {
  op_id = codes "0x";
  direction = direction;
  status = codes "mock";
  chain = chain;
  amount = amount;
  wrapped_symbol = codes "wBTC";
}

-- The chain, the transaction of the lock, the amount with its text, and the user's address.
abbrev pub lock_params : Text → Text → Json → Text → List Json
lock_params chain txid amount user =
    obj (
      field (codes "chain") (str chain) (
        field (codes "sourceTxid") (str txid)
          (field (codes "amount") amount (field (codes "userAddress") (str user) end))))
    ∷ []

unfoldable pub bridge_submit_lock :
    (Request → Reply BridgeOpResult)
    → Text
    → Text
    → Json
    → Text
    → Text
    → State
    → State × BridgeOpResult
bridge_submit_lock net chain txid amount amount_text user s =
    read net (codes "rstn_bridgeSubmitLock") (lock_params chain txid amount user)
      (mock_op (codes "LockMint") chain amount_text) (mock_op (codes "LockMint") chain amount_text)
      s

abbrev pub burn_params : Text → Json → Text → List Json
burn_params chain amount user =
    obj (
      field (codes "chain") (str chain)
        (field (codes "amount") amount (field (codes "userAddress") (str user) end)))
    ∷ []

unfoldable pub bridge_submit_burn :
    (Request → Reply BridgeOpResult) → Text → Json → Text → Text → State → State × BridgeOpResult
bridge_submit_burn net chain amount amount_text user s =
    read net (codes "rstn_bridgeSubmitBurn") (burn_params chain amount user)
      (mock_op (codes "BurnRelease") chain amount_text)
      (mock_op (codes "BurnRelease") chain amount_text) s

abbrev pub mock_balance : Text → WrappedBalance
mock_balance chain = record { chain = chain; symbol = codes "wBTC"; balance = codes "0" }

unfoldable pub bridge_get_wrapped_balance :
    (Request → Reply WrappedBalance) → Text → Text → State → State × WrappedBalance
bridge_get_wrapped_balance net chain user s =
    read net (codes "rstn_bridgeGetWrappedBalance")
      (obj (field (codes "chain") (str chain) (field (codes "userAddress") (str user) end)) ∷ [])
      (mock_balance chain) (mock_balance chain) s

unfoldable pub bridge_get_ops : (Request → Reply BridgeOps) → Decimal → State → State × BridgeOps
bridge_get_ops net limit s =
    read net (codes "rstn_bridgeGetOps") (obj (field (codes "limit") (num limit) end) ∷ [])
      (record { pending = []; completed = [] }) (record { pending = []; completed = [] }) s

pub record StablecoinState : Type 0 where
  pub min_collateral_ratio_bps : ℕ
  pub liquidation_ratio_bps : ℕ
  pub liquidation_penalty_bps : ℕ
  pub stability_fee_per_sec : String
  pub max_stale_blocks : ℕ
  pub median_price : String
  pub twap : String
  pub trusted_sources : ℕ
  pub total_sources : ℕ
  pub last_written_price : String
  pub last_write_height : ℕ
  pub current_height : ℕ
  pub price_stale : Bool
  pub total_supply : String
  pub total_collateral : String
  pub deployed : Bool

abbrev pub stablecoin_fallback : StablecoinState
stablecoin_fallback = record {
  min_collateral_ratio_bps = 15000;
  liquidation_ratio_bps = 15000;
  liquidation_penalty_bps = 1300;
  stability_fee_per_sec = "634195839";
  max_stale_blocks = 50;
  median_price = "0";
  twap = "0";
  trusted_sources = 0;
  total_sources = 0;
  last_written_price = "0";
  last_write_height = 0;
  current_height = 0;
  price_stale = true;
  total_supply = "0";
  total_collateral = "0";
  deployed = false;
}

unfoldable pub get_stablecoin_state :
    (Request → Reply StablecoinState) → State → State × StablecoinState
get_stablecoin_state net s =
    read net (codes "rstn_getStablecoinState") [] stablecoin_fallback stablecoin_fallback s
