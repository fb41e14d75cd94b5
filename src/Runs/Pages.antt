-- ===== src/Runs/Pages.antt =====
-- Runs of src/lib/validation.ts and of the adapter of src/lib/wallet.ts.
use resistance_network.Common.{
  ℕ, ◌≡◌, ◌*◌, ◌↔◌, zero, suc, not, ◌&&◌, starts_with, trim_start, refl, true, false, List, [], ◌∷◌,
  ◌++◌, Text, codes, length, replicate, All, trim, Option, none, some, ok, arith,
}
use resistance_network.Common.Int.{pos}
use resistance_network.TxHelpers.Hex.{IsByte, hex_to_bytes, strip_0x, parse_pairs}
use resistance_network.TxHelpers.BigInt.{
  Num, int, bigint_of_text, bigint_of_num, read_bigint, read_digits, print_bigint,
}
use resistance_network.TxHelpers.Encode.{
  Parts, tx_parts, raw_address, address_hex, payload_to_bytes,
}
use resistance_network.Json.{Request, Reply, failed, result}
use resistance_network.Sdk.{Crypto, SignedTransaction, NodeTransaction, to_node_format}
use resistance_network.Sdk.Builder
use resistance_network.Validation.{
  too_short, too_long, is_valid_rstn_address, is_valid_hex, HexOptions,
}
use resistance_network.Validation.Accepted.{is_valid_rstn_address-bytes, is_valid_hex_iff}
use resistance_network.Validation.Derived.{IsDigest}
use resistance_network.Api.{State, available}
use resistance_network.Api.Data.{WalletPortfolio}
use resistance_network.Adapter.{Kind, SignParams}
use resistance_network.Adapter.Signing.{choose, unsigned_tx}
use resistance_network.Adapter.Tags.{wire_type, unsigned_tx-wire_type}

abbrev some_address : Text
some_address = codes "rstn1" ++ replicate 40 b'a'

some_address_run : is_valid_rstn_address some_address ≡ true
unfolding is_valid_rstn_address trim trim_start
some_address_run = refl

is_valid_rstn_address-bytes_example :
    (bs : List ℕ) × (hex_to_bytes (address_hex (raw_address (trim some_address))) ≡ ok bs)
    × (length bs ≡ 20)
    × All IsByte bs
is_valid_rstn_address-bytes_example = is_valid_rstn_address-bytes some_address some_address_run

abbrev some_options : HexOptions
some_options = record { require_prefix = true; min_length = some 2; max_length = none }

is_valid_hex_iff_example : (is_valid_hex (codes "0xAf") some_options ≡ true) ↔ (
    (bs : List ℕ) × (hex_to_bytes (codes "0xAf") ≡ ok bs)
    × ((some_options.require_prefix && not (starts_with (codes "0x") (codes "0xAf"))) ≡ false)
    × (too_short some_options.min_length (2 * length bs) ≡ false)
    × (too_long some_options.max_length (2 * length bs) ≡ false))
is_valid_hex_iff_example = is_valid_hex_iff (codes "0xAf") some_options

-- A toy scheme with digests of 64 bytes.
abbrev page_crypto : Crypto
page_crypto = record {
  keccak_512 = λ m. replicate 64 7;
  keygen = λ seed. record { public_key = length seed ∷ []; secret_key = 9 ∷ [] };
  sign = λ m k. k;
  verify = λ s m p. true;
}

page-IsDigest : IsDigest page_crypto.keccak_512
page-IsDigest = record { digest_length = λ m. refl; digest_bytes = λ m. All-replicate 64 }
  where
    All-replicate : (n : ℕ) → All IsByte (replicate n 7)
    All-replicate zero = tt
    All-replicate (suc n) = (omega arith, All-replicate n)

abbrev deployment : SignParams
deployment = record {
  to = [];
  value = codes "0";
  kind = Kind.contract_deploy;
  data_text = some (codes "0x60");
}

abbrev deployment_signed : SignedTransaction
deployment_signed = record {
  tx = unsigned_tx deployment (int (pos 0));
  from = codes "02";
  signature = codes "40";
}

abbrev deployment_parts : Parts
deployment_parts = record {
  to_bytes = replicate 20 0;
  value = pos 0;
  nonce = pos 0;
  gas_price = pos 1000000000;
  gas_limit = pos 5000000;
  type_byte = 0;
  payload_bytes = 96 ∷ [];
}

deployment_encoded : tx_parts deployment_signed.tx ≡ ok deployment_parts
unfolding tx_parts unsigned_tx choose Builder.contract_deploy hex_to_bytes strip_0x parse_pairs
    raw_address address_hex payload_to_bytes bigint_of_text bigint_of_num read_bigint read_digits
    trim trim_start
deployment_encoded = refl

abbrev deployment_node : NodeTransaction
deployment_node = record {
  from = 2 ∷ [];
  to = replicate 20 0;
  value = print_bigint (pos 0);
  nonce = int (pos 0);
  gas_price = print_bigint (pos 1000000000);
  gas_limit = int (pos 5000000);
  tx_type = codes "Transfer";
  payload = 96 ∷ [];
  signature = 64 ∷ [];
}

deployment_formatted : to_node_format deployment_signed ≡ ok deployment_node
unfolding to_node_format unsigned_tx choose Builder.contract_deploy hex_to_bytes strip_0x
    parse_pairs raw_address payload_to_bytes bigint_of_text read_bigint read_digits trim trim_start
deployment_formatted = refl

unsigned_tx-wire_type_example :
    (deployment_parts.type_byte ≡ (wire_type deployment.kind).0)
    × (deployment_node.tx_type ≡ (wire_type deployment.kind).1)
unsigned_tx-wire_type_example =
    unsigned_tx-wire_type deployment (int (pos 0)) deployment_parts deployment_signed
      deployment_node refl deployment_encoded deployment_formatted

abbrev page_state : State
page_state = record {
  rpc_mode = true;
  rpc_id_counter = 0;
  has_window = true;
  window_override = none;
  storage = available none;
  notices = [];
}

abbrev no_portfolio : Request → Reply (WalletPortfolio × Option Num)
no_portfolio r = failed (codes "fetch failed")

abbrev accepting : Request → Reply Text
accepting r = result (codes "0x01")
