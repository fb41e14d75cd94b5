-- ===== src/TxHelpers/Encode.antt =====
-- src/lib/rstn-tx-helpers.ts: `canonicalEncodeTx` and `hashTransaction`. The hash function keccak_512
-- of @noble/hashes is a parameter.
pub mod Layout
pub mod Injective
use resistance_network.Common.{
  ℕ, zero, suc, ◌+◌, ◌%◌, String, Bool, true, false, not, Option, none, some, List, [], ◌∷◌, ◌++◌,
  Text, codes, ltb, ◌==◌, if◌then◌else◌, text_eq, starts_with, length, take, drop, replicate,
  Result, ok, err, out_of_range, ◌>>=◌,
}
use resistance_network.Common.Int.{ℤ}
use resistance_network.TxHelpers.Hex.{hex_to_bytes}
use resistance_network.TxHelpers.LittleEndian.{u128_to_le_bytes, u64_to_le_bytes}
use resistance_network.TxHelpers.BigInt.{Num, bigint_of_text, bigint_of_num}

pub record UnsignedTransaction : Type 0 where
  pub to : Text
  pub value : Text
  pub nonce : Num
  pub gas_price : Text
  pub gas_limit : Num
  pub tx_type : Text
  pub payload : Text

-- A property of an object literal. The names that every object inherits, such as `constructor`,
-- are left out.
abbrev pub property {ℓ} : {A : Type ℓ} → Text → List (String × A) → Option A
property key [] = none
property key ((k, v) ∷ more) = if text_eq (codes k) key then some v else property key more

-- `x ?? d`
abbrev pub or_default {ℓ} : {A : Type ℓ} → Option A → A → A
or_default none d = d
or_default (some a) d = a

abbrev pub tx_type_to_u8 : List (String × ℕ)
tx_type_to_u8 =
    ("transfer", 0)
    ∷ ("stake", 1)
    ∷ ("unstake", 2)
    ∷ ("delegate", 3)
    ∷ ("undelegate", 4)
    ∷ ("claim", 5)
    ∷ ("governance", 6)
    ∷ ("contract_call", 7)
    ∷ ("contract_deploy", 8)
    ∷ []

abbrev pub tx_type_to_pascal : List (String × Text)
tx_type_to_pascal =
    ("transfer", codes "Transfer")
    ∷ ("stake", codes "Stake")
    ∷ ("unstake", codes "Unstake")
    ∷ ("delegate", codes "Delegate")
    ∷ ("undelegate", codes "Undelegate")
    ∷ ("claim", codes "Claim")
    ∷ ("governance", codes "Governance")
    ∷ ("contract_call", codes "Contract")
    ∷ ("contract_deploy", codes "ContractDeploy")
    ∷ []

-- `to.startsWith("rstn1") ? to.slice(5) : to`
unfoldable pub raw_address : Text → Text
raw_address to = if starts_with (codes "rstn1") to then drop 5 to else to

-- `rawTo || "00"`
abbrev pub or_zero : Text → Text
or_zero [] = codes "00"
or_zero (c ∷ s) = c ∷ s

-- The address digits: an odd number of them gets a leading zero, none become one zero byte.
unfoldable pub address_hex : Text → Text
address_hex raw = if not (length raw % 2 == 0) then b'0' ∷ raw else or_zero raw

-- `payload.startsWith("0x") ? hexToBytes(payload.slice(2)) : hexToBytes(payload)`
unfoldable pub payload_to_bytes : Text → Result (List ℕ)
payload_to_bytes payload =
    if starts_with (codes "0x") payload then hex_to_bytes (drop 2 payload) else hex_to_bytes payload

-- The constants of `canonicalEncodeTx` before the buffer.
pub record Parts : Type 0 where
  pub to_bytes : List ℕ
  pub value : ℤ
  pub nonce : ℤ
  pub gas_price : ℤ
  pub gas_limit : ℤ
  pub type_byte : ℕ
  pub payload_bytes : List ℕ

unfoldable pub tx_parts : UnsignedTransaction → Result Parts
tx_parts tx = do
  to_bytes ← hex_to_bytes (address_hex (raw_address tx.to))
  value ← bigint_of_text tx.value
  nonce ← bigint_of_num tx.nonce
  gas_price ← bigint_of_text tx.gas_price
  gas_limit ← bigint_of_num tx.gas_limit
  payload_bytes ← payload_to_bytes tx.payload
  ok (record {
    to_bytes = to_bytes;
    value = value;
    nonce = nonce;
    gas_price = gas_price;
    gas_limit = gas_limit;
    type_byte = or_default (property tx.tx_type tx_type_to_u8) 0;
    payload_bytes = payload_bytes;
  })

-- `buf.set(xs, off)`
unfoldable pub set_bytes : List ℕ → List ℕ → ℕ → Result (List ℕ)
set_bytes buf xs off =
    if ltb (length buf) (off + length xs)
    then err out_of_range
    else ok (take off buf ++ (xs ++ drop (off + length xs) buf))

-- `buf.set(xs, off); off += xs.length;`
unfoldable pub put : List ℕ → List ℕ × ℕ → Result (List ℕ × ℕ)
unfolding set_bytes
put xs (buf, off) = do buf' ← set_bytes buf xs off; ok (buf', off + length xs)

-- `buf[i] = v`, which does nothing out of range
abbrev pub set : List ℕ → ℕ → ℕ → List ℕ
set [] i v = []
set (x ∷ xs) zero v = v ∷ xs
set (x ∷ xs) (suc i) v = x ∷ set xs i v

-- `buf[off] = v; off += 1;`, which keeps the lowest eight bits
unfoldable pub put_byte : ℕ → List ℕ × ℕ → List ℕ × ℕ
put_byte v (buf, off) = (set buf off (v % 256), off + 1)

-- The buffer and the writes into it.
unfoldable pub assemble : List ℕ → Parts → Result (List ℕ)
assemble from_bytes p = do
  let value_bytes = u128_to_le_bytes p.value
  let nonce_bytes = u64_to_le_bytes p.nonce
  let gas_price_bytes = u128_to_le_bytes p.gas_price
  let gas_limit_bytes = u64_to_le_bytes p.gas_limit
  let total =
      length from_bytes
      + length p.to_bytes
      + length value_bytes
      + length nonce_bytes
      + length gas_price_bytes
      + length gas_limit_bytes
      + 1
      + length p.payload_bytes
  at_to ← put from_bytes (replicate total 0, 0)
  at_value ← put p.to_bytes at_to
  at_nonce ← put value_bytes at_value
  at_gas_price ← put nonce_bytes at_nonce
  at_gas_limit ← put gas_price_bytes at_gas_price
  at_type ← put gas_limit_bytes at_gas_limit
  done ← put p.payload_bytes (put_byte p.type_byte at_type)
  ok done.0

unfoldable pub canonical_encode_tx : UnsignedTransaction → List ℕ → Result (List ℕ)
canonical_encode_tx tx from_pub_key = do parts ← tx_parts tx; assemble from_pub_key parts

module _ (keccak_512 : List ℕ → List ℕ) where
  unfoldable pub hash_transaction : UnsignedTransaction → List ℕ → Result (List ℕ)
  hash_transaction tx from_pub_key = do
    bytes ← canonical_encode_tx tx from_pub_key
    ok (keccak_512 bytes)
