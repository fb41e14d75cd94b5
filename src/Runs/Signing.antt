-- ===== src/Runs/Signing.antt =====
-- Runs of src/lib/rstn-tx-helpers.ts, src/lib/rstn-sdk.ts and src/lib/wallet.ts.
use resistance_network.Common.{
  ℕ, ◌≡◌, ◌≢◌, ◌%◌, refl, true, List, [], ◌∷◌, ◌++◌, codes, length, All, map, replicate, ok,
  text_eq, text_eq_refl, arith, ◌>>=◌, ◌↔◌, trim, trim_start,
}
use resistance_network.Common.Int.{pos}
use resistance_network.TxHelpers.Hex.{IsByte, to_hex, strip_0x, hex_to_bytes, parse_pairs}
use resistance_network.TxHelpers.Hex.RoundTrip.{hex_to_bytes-to_hex}
use resistance_network.TxHelpers.Hex.Parsing.{lower, IsHexText, hex_to_bytes_iff}
use resistance_network.TxHelpers.LittleEndian.{le_bytes, u128_to_le_bytes, u64_to_le_bytes}
use resistance_network.TxHelpers.BigInt.{
  int, bigint_of_text, bigint_of_num, print_bigint, print_loop, read_bigint, read_digits,
}
use resistance_network.TxHelpers.Encode.{
  UnsignedTransaction, Parts, tx_parts, assemble, canonical_encode_tx, hash_transaction,
  raw_address, address_hex, payload_to_bytes, put, set_bytes, put_byte,
}
use resistance_network.TxHelpers.Encode.Layout.{layout, canonical_encode_tx-layout}
use resistance_network.TxHelpers.Encode.Injective.{IsEncodable, assemble-injective}
use resistance_network.Sdk.{
  Crypto, SignedTransaction, NodeTransaction, generate, sign_tx, verify_signature, to_node_format,
}
use resistance_network.Sdk.Signing.{IsScheme, sign_tx-verify_signature}
use resistance_network.Sdk.NodeFormat.{Agrees, to_node_format-Agrees}
use resistance_network.WalletExt.Tx
use resistance_network.WalletExt.Tx.Agreement.{canonical_encode_tx-to_node_format}

-- A toy scheme: a signature is the length of the message.
abbrev pub toy_crypto : Crypto
toy_crypto = record {
  keccak_512 = λ m. replicate 64 7;
  keygen = λ seed. record { public_key = (length seed % 256) ∷ []; secret_key = 9 ∷ [] };
  sign = λ m k. (length m % 256) ∷ [];
  verify = λ s m p. text_eq s ((length m % 256) ∷ []);
}

pub toy_laws : IsScheme toy_crypto
toy_laws = record {
  public_bytes = λ seed. (omega arith, tt);
  secret_bytes = λ seed. (omega arith, tt);
  secret_nonempty = λ seed e. cc;
  sign_bytes = λ m k. (omega arith, tt);
  verifies = λ seed m. text_eq_refl ((length m % 256) ∷ []);
}

abbrev some_transfer : UnsignedTransaction
some_transfer = record {
  to = codes "rstn1ab";
  value = codes "300";
  nonce = int (pos 2);
  gas_price = codes "1";
  gas_limit = int (pos 7);
  tx_type = codes "transfer";
  payload = codes "0x0F";
}

abbrev some_signed : SignedTransaction
some_signed = record { tx = some_transfer; from = codes "02"; signature = codes "40" }

signing_run : sign_tx toy_crypto (generate toy_crypto (1 ∷ 2 ∷ [])) some_transfer ≡ ok some_signed
unfolding sign_tx generate hash_transaction canonical_encode_tx tx_parts assemble hex_to_bytes
    to_hex strip_0x parse_pairs raw_address address_hex payload_to_bytes bigint_of_text
    bigint_of_num read_bigint read_digits trim trim_start put set_bytes put_byte u128_to_le_bytes
    u64_to_le_bytes le_bytes
signing_run = refl

sign_tx-verify_signature_example :
    (h : List ℕ) × (sig : List ℕ) × (hash_transaction toy_crypto.keccak_512 some_transfer (2 ∷ [])
      ≡ ok h)
    × (some_signed.tx ≡ some_transfer)
    × (hex_to_bytes some_signed.from ≡ ok (2 ∷ []))
    × (hex_to_bytes some_signed.signature ≡ ok sig)
    × (verify_signature toy_crypto (2 ∷ []) h sig ≡ true)
sign_tx-verify_signature_example =
    sign_tx-verify_signature toy_crypto toy_laws (1 ∷ 2 ∷ []) some_transfer some_signed signing_run

abbrev some_parts : Parts
some_parts = record {
  to_bytes = 171 ∷ [];
  value = pos 300;
  nonce = pos 2;
  gas_price = pos 1;
  gas_limit = pos 7;
  type_byte = 0;
  payload_bytes = 15 ∷ [];
}

parts_run : tx_parts some_transfer ≡ ok some_parts
unfolding sign_tx generate hash_transaction canonical_encode_tx tx_parts assemble hex_to_bytes
    to_hex strip_0x parse_pairs raw_address address_hex payload_to_bytes bigint_of_text
    bigint_of_num read_bigint read_digits trim trim_start put set_bytes put_byte u128_to_le_bytes
    u64_to_le_bytes le_bytes
parts_run = refl

some_parts-IsEncodable : IsEncodable some_parts
some_parts-IsEncodable = record {
  value_fits = omega arith;
  nonce_fits = omega arith;
  gas_price_fits = omega arith;
  gas_limit_fits = omega arith;
  type_fits = omega arith;
}

abbrev some_key : List ℕ
some_key = 2 ∷ []

assemble-injective_example : (some_key ≡ some_key) × (some_parts ≡ some_parts)
assemble-injective_example =
    assemble-injective some_key some_key some_parts some_parts some_parts-IsEncodable
      some_parts-IsEncodable refl refl refl

canonical_encode_tx-layout_example :
    canonical_encode_tx some_transfer (2 ∷ [])
    ≡ (tx_parts some_transfer >>= λ p. ok (layout (2 ∷ []) p))
canonical_encode_tx-layout_example = canonical_encode_tx-layout some_transfer (2 ∷ [])

encoding_run :
    canonical_encode_tx some_transfer (2 ∷ [])
    ≡ ok (
        2
        ∷ 171
        ∷ 44
        ∷ 1
        ∷ (replicate 14 0
            ++ 2 ∷ (replicate 7 0 ++ 1 ∷ (replicate 15 0 ++ 7 ∷ (replicate 7 0 ++ 0 ∷ 15 ∷ [])))))
unfolding sign_tx generate hash_transaction canonical_encode_tx tx_parts assemble hex_to_bytes
    to_hex strip_0x parse_pairs raw_address address_hex payload_to_bytes bigint_of_text
    bigint_of_num read_bigint read_digits trim trim_start put set_bytes put_byte u128_to_le_bytes
    u64_to_le_bytes le_bytes
encoding_run = refl

hex_to_bytes-to_hex_example : hex_to_bytes (to_hex (10 ∷ 255 ∷ [])) ≡ ok (10 ∷ 255 ∷ [])
hex_to_bytes-to_hex_example = hex_to_bytes-to_hex (10 ∷ 255 ∷ []) (omega arith, (omega arith, tt))

hex_to_bytes_iff_example : (hex_to_bytes (codes "0xAf") ≡ ok (175 ∷ [])) ↔ (
    IsHexText (strip_0x (codes "0xAf"))
    × All IsByte (175 ∷ [])
    × (to_hex (175 ∷ []) ≡ map lower (strip_0x (codes "0xAf"))))
hex_to_bytes_iff_example = hex_to_bytes_iff (codes "0xAf") (175 ∷ [])

abbrev some_node : NodeTransaction
some_node = record {
  from = 2 ∷ [];
  to = 171 ∷ [];
  value = codes "300";
  nonce = int (pos 2);
  gas_price = codes "1";
  gas_limit = int (pos 7);
  tx_type = codes "Transfer";
  payload = 15 ∷ [];
  signature = 64 ∷ [];
}

node_run : to_node_format some_signed ≡ ok some_node
unfolding to_node_format sign_tx generate hash_transaction canonical_encode_tx tx_parts assemble
    hex_to_bytes to_hex strip_0x parse_pairs raw_address address_hex payload_to_bytes bigint_of_text
    bigint_of_num read_bigint read_digits trim trim_start put set_bytes put_byte u128_to_le_bytes
    u64_to_le_bytes le_bytes print_bigint print_loop
node_run = refl

some_recipient : raw_address (codes "rstn1ab") ≢ []
unfolding raw_address
some_recipient = λ e. cc

to_node_format-Agrees_example :
    (p : Parts) × (tx_parts some_transfer ≡ ok p)
    × Agrees p some_node
    × (hex_to_bytes (codes "02") ≡ ok (2 ∷ []))
    × (hex_to_bytes (codes "40") ≡ ok (64 ∷ []))
to_node_format-Agrees_example =
    to_node_format-Agrees some_signed some_node (pos 2) (pos 7) node_run some_recipient refl refl

canonical_encode_tx-to_node_format_example :
    Tx.canonical_encode_tx some_node ≡ canonical_encode_tx some_transfer (2 ∷ [])
canonical_encode_tx-to_node_format_example =
    canonical_encode_tx-to_node_format some_signed some_node (pos 2) (pos 7) node_run some_recipient
      refl refl
