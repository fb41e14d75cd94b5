-- ===== src/Api/Writes.antt =====
-- src/lib/api.ts: the operations of `api` that write. A failed call is reported, and without a node
-- they answer with a made-up hash. `Math.random().toString(16)` is an argument.
use resistance_network.Common.{
  List, [], ◌∷◌, ◌++◌, Text, codes, take, drop, if◌then◌else◌, Result, ok,
}
use resistance_network.Common.Int.{pos}
use resistance_network.TxHelpers.Hex.{pad_start}
use resistance_network.Json.{Json, Decimal, num, str, obj, field, end, Request, Reply}
use resistance_network.Api.{State, rpc_call_or_throw}

-- `"0x" + random.slice(2, 18).padStart(16, "0")`
unfoldable pub mock_hash : Text → Text
mock_hash random = codes "0x" ++ pad_start 16 b'0' (take 16 (drop 2 random))

-- The two paths of a write.
unfoldable pub write {ℓ} :
    {A : Type ℓ} → (Request → Reply A) → Text → List Json → A → State → State × Result A
write net method params mock s =
    if s.rpc_mode then rpc_call_or_throw net method params s else (s, ok mock)

unfoldable pub submit_transaction :
    (Request → Reply Text) → Json → Text → State → State × Result Text
submit_transaction net signed_tx random s =
    write net (codes "rstn_sendTransaction") (signed_tx ∷ []) (mock_hash random) s

pub record FaucetClaim : Type 0 where
  pub hash : Text
  pub amount : Decimal

abbrev pub faucet_amount : Decimal
faucet_amount = record { mantissa = pos 1000; places = 0 }

unfoldable pub faucet_claim :
    (Request → Reply FaucetClaim) → Text → Text → State → State × Result FaucetClaim
faucet_claim net address random s =
    write net (codes "rstn_faucetClaim") (str address ∷ [])
      (record { hash = mock_hash random; amount = faucet_amount }) s

pub record StakingReceipt : Type 0 where
  pub hash : Text
  pub amount : Decimal
  pub kind : Text

unfoldable pub stake :
    (Request → Reply StakingReceipt) → Text → Decimal → Text → State → State × Result StakingReceipt
stake net address amount random s =
    write net (codes "rstn_stake")
      (obj (field (codes "address") (str address) (field (codes "amount") (num amount) end)) ∷ [])
      (record { hash = mock_hash random; amount = amount; kind = codes "stake" }) s

unfoldable pub unstake :
    (Request → Reply StakingReceipt) → Text → Decimal → Text → State → State × Result StakingReceipt
unstake net address amount random s =
    write net (codes "rstn_unstake")
      (obj (field (codes "address") (str address) (field (codes "amount") (num amount) end)) ∷ [])
      (record { hash = mock_hash random; amount = amount; kind = codes "unstake" }) s

abbrev pub delegation : Text → Text → Decimal → List Json
delegation delegator validator amount =
    obj (
      field (codes "delegator") (str delegator)
        (field (codes "validator") (str validator) (field (codes "amount") (num amount) end)))
    ∷ []

unfoldable pub delegate :
    (Request → Reply StakingReceipt)
    → Text
    → Text
    → Decimal
    → Text
    → State
    → State × Result StakingReceipt
delegate net delegator validator amount random s =
    write net (codes "rstn_delegate") (delegation delegator validator amount)
      (record { hash = mock_hash random; amount = amount; kind = codes "delegate" }) s

unfoldable pub undelegate :
    (Request → Reply StakingReceipt)
    → Text
    → Text
    → Decimal
    → Text
    → State
    → State × Result StakingReceipt
undelegate net delegator validator amount random s =
    write net (codes "rstn_undelegate") (delegation delegator validator amount)
      (record { hash = mock_hash random; amount = amount; kind = codes "undelegate" }) s

abbrev pub claimed_amount : Decimal
claimed_amount = record { mantissa = pos 125; places = 1 }

unfoldable pub claim_rewards :
    (Request → Reply StakingReceipt) → Text → Text → State → State × Result StakingReceipt
claim_rewards net address random s =
    write net (codes "rstn_claimRewards") (obj (field (codes "address") (str address) end) ∷ [])
      (record { hash = mock_hash random; amount = claimed_amount; kind = codes "claim" }) s
