-- ===== src/Sdk/Signing.antt =====
-- `signTx` against the laws of the signature scheme.
use resistance_network.Common.{
  ℕ, ◌≡◌, ◌≢◌, refl, sym, Bool, true, some, List, [], ◌∷◌, Text, All, ok, err, invalid_hex, ◌>>=◌,
  >>=-eq-ok, ok-injective, ap, ◌∙◌,
}
use resistance_network.TxHelpers.Hex.{IsByte, to_hex, hex_to_bytes, strip_0x}
use resistance_network.TxHelpers.Hex.RoundTrip.{to_hex-cons, hex_to_bytes-to_hex}
use resistance_network.TxHelpers.BigInt.{Num}
use resistance_network.TxHelpers.Encode.{
  UnsignedTransaction, hash_transaction, canonical_encode_tx, tx_parts, address_hex, raw_address,
}
use resistance_network.Sdk.{
  Crypto, SignedTransaction, Wallet, generate, sign_tx, verify_signature, truthy_key,
}
use resistance_network.Sdk.Builder.{governance}

-- What the scheme promises: its outputs are bytes, a secret key is not empty, and a signature made with
-- the secret key of a pair verifies under its public key.
pub record IsScheme (crypto : Crypto) : Type 0 where
  pub public_bytes : (seed : List ℕ) → All IsByte (crypto.keygen seed).public_key
  pub secret_bytes : (seed : List ℕ) → All IsByte (crypto.keygen seed).secret_key
  pub secret_nonempty : (seed : List ℕ) → (crypto.keygen seed).secret_key ≢ []
  pub sign_bytes : (m k : List ℕ) → All IsByte (crypto.sign m k)
  pub verifies :
      (seed m : List ℕ)
      → crypto.verify
          (crypto.sign m (crypto.keygen seed).secret_key)
          m
          (crypto.keygen seed).public_key
        ≡ true

-- A key that is not empty prints to a text that is not empty.
truthy_key-to_hex :
    (bs : List ℕ) → All IsByte bs → bs ≢ [] → truthy_key (some (to_hex bs)) ≡ ok (to_hex bs)
truthy_key-to_hex [] h nonempty = absurd (nonempty refl)
truthy_key-to_hex (b ∷ bs) h nonempty = rw (to_hex-cons b bs h.0)

module _ (crypto : Crypto) (laws : IsScheme crypto) where
  -- A generated wallet signs exactly what can be hashed.
  sign_tx-generate :
      (seed : List ℕ) (tx : UnsignedTransaction)
      → sign_tx crypto (generate crypto seed) tx ≡ (
          hash_transaction crypto.keccak_512 tx (crypto.keygen seed).public_key >>= λ h.
          ok (record {
            tx = tx;
            from = to_hex (crypto.keygen seed).public_key;
            signature = to_hex (crypto.sign h (crypto.keygen seed).secret_key);
          }))
  unfolding sign_tx generate
  sign_tx-generate seed tx = rw (
    truthy_key-to_hex _ (laws.secret_bytes seed) (laws.secret_nonempty seed),
    hex_to_bytes-to_hex (crypto.keygen seed).public_key (laws.public_bytes seed),
    hex_to_bytes-to_hex (crypto.keygen seed).secret_key (laws.secret_bytes seed),
  )

  -- With a scheme that keeps `IsScheme`, what a generated wallet signs carries the transaction unchanged
  -- and the wallet's public key, and its signature is the text of bytes that verify, for the
  -- transaction's hash, under that key.
  pub sign_tx-verify_signature :
      (seed : List ℕ) (tx : UnsignedTransaction) (signed : SignedTransaction)
      → sign_tx crypto (generate crypto seed) tx ≡ ok signed
      → (h : List ℕ) × (sig : List ℕ) × (hash_transaction crypto.keccak_512 tx
            (crypto.keygen seed).public_key
          ≡ ok h)
        × (signed.tx ≡ tx)
        × (hex_to_bytes signed.from ≡ ok (crypto.keygen seed).public_key)
        × (hex_to_bytes signed.signature ≡ ok sig)
        × (verify_signature crypto (crypto.keygen seed).public_key h sig ≡ true)
  unfolding verify_signature
  sign_tx-verify_signature seed tx signed e =
      let (h, hashed, made) = >>=-eq-ok _ _ (sym (sign_tx-generate seed tx) ∙ e) in
      (
        h,
        crypto.sign h (crypto.keygen seed).secret_key,
        hashed,
        ap (λ s. s.tx) (sym (ok-injective made)),
        ap (λ s. hex_to_bytes s.from) (sym (ok-injective made))
            ∙ hex_to_bytes-to_hex _ (laws.public_bytes seed),
        ap (λ s. hex_to_bytes s.signature) (sym (ok-injective made))
            ∙ hex_to_bytes-to_hex _ (laws.sign_bytes h _),
        laws.verifies seed h,
      )

-- The recipient of every governance transaction is no hexadecimal text.
governance_parts :
    (id : Text) (vote : Bool) (nonce : Num) → tx_parts (governance id vote nonce) ≡ err invalid_hex
unfolding tx_parts governance hex_to_bytes address_hex raw_address strip_0x
governance_parts id vote nonce = refl

-- No wallet signs a transaction that `TransactionBuilder.governance` builds, whatever the proposal,
-- the vote and the nonce: the encoding fails on the fixed recipient.
sign_tx-governance :
    (crypto : Crypto) (w : Wallet) (id : Text) (vote : Bool) (nonce : Num)
    (signed : SignedTransaction)
    → sign_tx crypto w (governance id vote nonce) ≢ ok signed
unfolding sign_tx hash_transaction canonical_encode_tx
sign_tx-governance crypto w id vote nonce signed e =
    let (k, _, e1) = >>=-eq-ok (truthy_key w.private_key) _ e in
    let (p, _, e2) = >>=-eq-ok (hex_to_bytes w.public_key) _ e1 in
    let (h, hashed, _) =
      >>=-eq-ok (hash_transaction crypto.keccak_512 (governance id vote nonce) p) _ e2 in
    cc (hashed, governance_hash crypto.keccak_512 id vote nonce p)
  where
    governance_hash :
        (keccak_512 : List ℕ → List ℕ) (id : Text) (vote : Bool) (nonce : Num) (p : List ℕ)
        → hash_transaction keccak_512 (governance id vote nonce) p ≡ err invalid_hex
    governance_hash keccak_512 id vote nonce p = rw (governance_parts id vote nonce)
