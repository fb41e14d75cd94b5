-- ===== src/Validation/Derived.antt =====
-- The addresses that the wallet derives against the check of `isValidRstnAddress`.
use resistance_network.Common.{
  ℕ, ◌-◌, ◌≡◌, refl, true, List, [], ◌∷◌, ◌++◌, Text, codes, length, drop, all, All, length-drop,
  All-drop, arith,
}
use resistance_network.Common.Trim.{IsSolid, trim_of_solid}
use resistance_network.TxHelpers.Hex.{IsByte, is_hex, to_hex}
use resistance_network.TxHelpers.Hex.RoundTrip.{length-to_hex, all-is_hex-to_hex}
use resistance_network.Sdk.{Crypto, derive_address, generate}
use resistance_network.Validation.{is_valid_rstn_address}

-- The digest of keccak_512: 64 bytes.
pub record IsDigest (keccak_512 : List ℕ → List ℕ) : Type 0 where
  pub digest_length : (m : List ℕ) → length (keccak_512 m) ≡ 64
  pub digest_bytes : (m : List ℕ) → All IsByte (keccak_512 m)

IsSolid-of_hex : (s : Text) → all is_hex s ≡ true → All IsSolid s
IsSolid-of_hex [] h = tt
IsSolid-of_hex (c ∷ s) h = (ground arith, IsSolid-of_hex s (ground arith))

is_valid_of_hex :
    (s : Text)
    → length s ≡ 40
    → all is_hex s ≡ true
    → is_valid_rstn_address (codes "rstn1" ++ s) ≡ true
unfolding is_valid_rstn_address
is_valid_of_hex s h k = rw (
  trim_of_solid (codes "rstn1" ++ s) (refl, (refl, (refl, (refl, (refl, IsSolid-of_hex s k))))),
  h,
  k,
)

-- If digests have 64 bytes, the address of every generated wallet passes the check.
is_valid_rstn_address-generate :
    (crypto : Crypto) (seed : List ℕ)
    → IsDigest crypto.keccak_512
    → is_valid_rstn_address (generate crypto seed).address ≡ true
unfolding generate derive_address
is_valid_rstn_address-generate crypto seed laws =
    let hash = crypto.keccak_512 (crypto.keygen seed).public_key in
    let tail = drop (length hash - 20) hash in
    let bytes : All IsByte tail = All-drop IsByte (length hash - 20) hash (laws.digest_bytes _) in
    is_valid_of_hex (to_hex tail)
      (omega (
        arith,
        length-to_hex tail bytes,
        length-drop (length hash - 20) hash,
        laws.digest_length (crypto.keygen seed).public_key,
      ))
      (all-is_hex-to_hex tail bytes)
