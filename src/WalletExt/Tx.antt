-- ===== src/WalletExt/Tx.antt =====
-- rstn-wallet/wallet-lib.js: the transaction that is signed and sent. The hash and the signature scheme
-- are those of Sdk's `Crypto`; in the source they come from the bundle crypto.js.
pub mod Agreement
use resistance_network.Common.{
  ℕ, ◌+◌, ◌-◌, String, Bool, true, false, List, [], ◌∷◌, ◌++◌, Text, codes, length, drop, replicate,
  Result, ok, err, ◌>>=◌,
}
use resistance_network.TxHelpers.Hex.{to_hex}
use resistance_network.TxHelpers.LittleEndian.{u128_to_le_bytes, u64_to_le_bytes}
use resistance_network.TxHelpers.BigInt.{Num, bigint_of_text, bigint_of_num}
use resistance_network.TxHelpers.Encode.{property, or_default, set_bytes, put_byte}
use resistance_network.Sdk.{NodeTransaction}
use resistance_network.WalletExt.Bytes.{address_to_bytes}

abbrev pub tx_type_to_u8 : List (String × ℕ)
tx_type_to_u8 =
    ("Transfer", 0)
    ∷ ("Stake", 1)
    ∷ ("Unstake", 2)
    ∷ ("Delegate", 3)
    ∷ ("Undelegate", 4)
    ∷ ("Claim", 5)
    ∷ ("Governance", 6)
    ∷ ("Contract", 7)
    ∷ ("ContractDeploy", 8)
    ∷ []

-- `buf.set(xs, off); off += n;`
unfoldable pub advance : ℕ → List ℕ → List ℕ × ℕ → Result (List ℕ × ℕ)
advance n xs (buf, off) = do buf' ← set_bytes buf xs off; ok (buf', off + n)

-- The buffer of `canonicalEncodeTx`, from the numbers on. The last offset is not used.
unfoldable pub fill_buffer : NodeTransaction → List ℕ → List ℕ → List ℕ → List ℕ → Result (List ℕ)
fill_buffer tx value_bytes nonce_bytes gas_price_bytes gas_limit_bytes = do
  let total = length tx.from + length tx.to + 16 + 8 + 16 + 8 + 1 + length tx.payload
  at_to ← advance (length tx.from) tx.from (replicate total 0, 0)
  at_value ← advance (length tx.to) tx.to at_to
  at_nonce ← advance 16 value_bytes at_value
  at_gas_price ← advance 8 nonce_bytes at_nonce
  at_gas_limit ← advance 16 gas_price_bytes at_gas_price
  at_type ← advance 8 gas_limit_bytes at_gas_limit
  let at_payload = put_byte (or_default (property tx.tx_type tx_type_to_u8) 0) at_type
  set_bytes at_payload.0 tx.payload at_payload.1

unfoldable pub canonical_encode_tx : NodeTransaction → Result (List ℕ)
canonical_encode_tx tx = do
  value ← bigint_of_text tx.value
  nonce ← bigint_of_num tx.nonce
  gas_price ← bigint_of_text tx.gas_price
  gas_limit ← bigint_of_num tx.gas_limit
  fill_buffer tx (u128_to_le_bytes value) (u64_to_le_bytes nonce) (u128_to_le_bytes gas_price)
      (u64_to_le_bytes gas_limit)

unfoldable pub hash_transaction : (List ℕ → List ℕ) → NodeTransaction → Result (List ℕ)
hash_transaction keccak_512 tx = do bytes ← canonical_encode_tx tx; ok (keccak_512 bytes)

-- The signature is null in the source until it is set; the encoding does not read it.
abbrev pub build_node_tx : List ℕ → Text → Text → Num → Text → Num → Text → List ℕ → NodeTransaction
build_node_tx from_pub_key to_address value nonce gas_price gas_limit tx_type payload = record {
  from = from_pub_key;
  to = address_to_bytes to_address;
  value = value;
  nonce = nonce;
  gas_price = gas_price;
  gas_limit = gas_limit;
  tx_type = tx_type;
  payload = payload;
  signature = [];
}
