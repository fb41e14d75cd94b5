-- ===== src/WalletExt/Background/Transfers/Verified.antt =====
-- The transaction that a transfer sends.
use resistance_network.Common.{
  ℕ, ◌≡◌, refl, ap₂, ◌∙◌, true, List, [], Text, codes, trim, trim_start, ok,
}
use resistance_network.Common.Int.{pos}
use resistance_network.TxHelpers.BigInt.{
  print_bigint, bigint_of_text, bigint_of_num, read_bigint, read_digits, int,
}
use resistance_network.TxHelpers.BigInt.Printing.{bigint_of_text-print_bigint}
use resistance_network.TxHelpers.Encode.Layout.{assemble-layout}
use resistance_network.Sdk.{NodeTransaction}
use resistance_network.Sdk.Signing.{IsScheme}
use resistance_network.WalletExt.Platform.{Keypair, Platform}
use resistance_network.WalletExt.Bytes.{address_to_bytes}
use resistance_network.WalletExt.Tx.{
  fill_buffer, canonical_encode_tx, hash_transaction, build_node_tx,
}
use resistance_network.WalletExt.Tx.Agreement.{encode_parts, parts_of}
use resistance_network.WalletExt.Amount.{parse_amount_wei}
use resistance_network.WalletExt.Background.Transfers.{sign_transaction, transfer}

-- The transaction, before it is signed.
abbrev unsigned_transfer : Keypair → ℕ → Text → ℕ → NodeTransaction
unsigned_transfer kp nonce to wei =
    build_node_tx kp.public_key to (print_bigint (pos wei)) (int (pos nonce)) (codes "1000000000")
      (int (pos 21000)) (codes "Transfer") []

gas_price_read : bigint_of_text (codes "1000000000") ≡ ok (pos 1000000000)
unfolding bigint_of_text read_bigint read_digits trim trim_start
gas_price_read = refl

int_read : (n : ℕ) → bigint_of_num (int (pos n)) ≡ ok (pos n)
unfolding bigint_of_num
int_read n = refl

unsigned_transfer-encoded :
    (kp : Keypair) (nonce : ℕ) (to : Text) (wei : ℕ)
    → (bytes : List ℕ) × (canonical_encode_tx (unsigned_transfer kp nonce to wei) ≡ ok bytes)
unsigned_transfer-encoded kp nonce to wei =
    let tx = unsigned_transfer kp nonce to wei in
    (
      _,
      encode_parts tx (pos wei) (pos nonce) (pos 1000000000) (pos 21000)
            (bigint_of_text-print_bigint (pos wei)) (int_read nonce) gas_price_read (int_read 21000)
          ∙ assemble-layout tx.from
              (parts_of tx (pos wei) (pos nonce) (pos 1000000000) (pos 21000)),
    )

-- The signature is not encoded.
canonical_encode_tx-signature :
    (tx : NodeTransaction) (s : List ℕ)
    → canonical_encode_tx (record tx { signature = s }) ≡ canonical_encode_tx tx
unfolding canonical_encode_tx fill_buffer
canonical_encode_tx-signature tx s = refl

hash_transaction-encoded :
    (keccak_512 : List ℕ → List ℕ) (tx : NodeTransaction) (bytes : List ℕ)
    → canonical_encode_tx tx ≡ ok bytes
    → hash_transaction keccak_512 tx ≡ ok (keccak_512 bytes)
unfolding hash_transaction
hash_transaction-encoded keccak_512 tx bytes e = rw e refl

sign_transaction-encoded :
    (platform : Platform) (tx : NodeTransaction) (secret_key bytes : List ℕ)
    → canonical_encode_tx tx ≡ ok bytes
    → sign_transaction platform tx secret_key
      ≡ ok (platform.crypto.sign (platform.crypto.keccak_512 bytes) secret_key)
unfolding sign_transaction
sign_transaction-encoded platform tx secret_key bytes e =
    rw (hash_transaction-encoded platform.crypto.keccak_512 tx bytes e) refl

transfer-signed :
    (platform : Platform) (kp : Keypair) (nonce : ℕ) (to amount : Text) (wei : ℕ) (s : List ℕ)
    → parse_amount_wei amount ≡ ok wei
    → sign_transaction platform (unsigned_transfer kp nonce to wei) kp.secret_key ≡ ok s
    → transfer platform kp nonce to amount
      ≡ ok (record (unsigned_transfer kp nonce to wei) { signature = s })
unfolding transfer
transfer-signed platform kp nonce to amount wei s parsed signed = rw (parsed, signed) refl

-- What a node finds in a transaction of a transfer.
pub record IsTransfer (platform : Platform) (kp : Keypair) (nonce : ℕ) (to : Text) (wei : ℕ)
    (tx : NodeTransaction) : Type 0 where
  pub hash : List ℕ
  pub hashed : hash_transaction platform.crypto.keccak_512 tx ≡ ok hash
  pub verified : platform.crypto.verify tx.signature hash tx.from ≡ true
  pub from_key : tx.from ≡ kp.public_key
  pub value_read : bigint_of_text tx.value ≡ ok (pos wei)
  pub nonce_read : bigint_of_num tx.nonce ≡ ok (pos nonce)
  pub recipient : tx.to ≡ address_to_bytes to

module _ (platform : Platform) (laws : IsScheme platform.crypto) where
  -- An account with the keys of a seed can always send an amount that can be read: the transfer comes
  -- to a transaction from its public key, of this number of wei and with this nonce, to the bytes that
  -- the recipient reads as, whose signature verifies on the transaction's own hash.
  pub transfer-IsTransfer :
      (kp : Keypair) (seed : List ℕ) (nonce : ℕ) (to amount : Text) (wei : ℕ)
      → kp.public_key ≡ (platform.crypto.keygen seed).public_key
      → kp.secret_key ≡ (platform.crypto.keygen seed).secret_key
      → parse_amount_wei amount ≡ ok wei
      → (tx : NodeTransaction) × (transfer platform kp nonce to amount ≡ ok tx)
        × IsTransfer platform kp nonce to wei tx
  transfer-IsTransfer kp seed nonce to amount wei public secret parsed =
      let (bytes, encoded) = unsigned_transfer-encoded kp nonce to wei in
      let hash = platform.crypto.keccak_512 bytes in
      let signature = platform.crypto.sign hash kp.secret_key in
      (
        record (unsigned_transfer kp nonce to wei) { signature = signature },
        transfer-signed platform kp nonce to amount wei signature parsed (
            sign_transaction-encoded platform (unsigned_transfer kp nonce to wei) kp.secret_key
              bytes encoded),
        record {
          hash = hash;
          hashed = hash_transaction-encoded platform.crypto.keccak_512 _ bytes (
              canonical_encode_tx-signature (unsigned_transfer kp nonce to wei) signature
              ∙ encoded);
          verified =
              ap₂ (λ (s p : List ℕ). platform.crypto.verify (platform.crypto.sign hash s) hash p)
                secret public
              ∙ laws.verifies seed hash;
          from_key = refl;
          value_read = bigint_of_text-print_bigint (pos wei);
          nonce_read = int_read nonce;
          recipient = refl;
        },
      )
