-- ===== src/Views/Contracts/Deployed.antt =====
-- What src/components/views/ContractsView.tsx asks the wallet to sign can be encoded.
use resistance_network.Common.{
  ℕ, ◌≤◌, ◌*◌, ◌≡◌, refl, sym, ap, subst, ◌∙◌, true, false, List, Text, codes, length, drop,
  starts_with, none, some, ok, arith, Bool-cases, inl, inr,
}
use resistance_network.TxHelpers.Hex.{strip_0x, hex_to_bytes, parse_pairs}
use resistance_network.TxHelpers.Hex.Parsing.{
  hex_to_bytes_of_IsHexText, hex_to_bytes-eq-ok, IsHexText,
}
use resistance_network.TxHelpers.Encode.{payload_to_bytes}
use resistance_network.Validation.{is_valid_hex, too_short}
use resistance_network.Validation.Accepted.{is_valid_hex_iff, strip_0x_of_long}
use resistance_network.Views.Contracts.{at_least_two, refused_bytecode}

-- `payload_to_bytes` strips a prefix before `hexToBytes` does; no second one follows an accepted one.
payload_to_bytes_of_hex :
    (code : Text) (bs : List ℕ) → hex_to_bytes code ≡ ok bs → payload_to_bytes code ≡ ok bs
unfolding payload_to_bytes
payload_to_bytes_of_hex code bs h =
    let (fits, same) = hex_to_bytes-eq-ok code bs h in
    elim (Bool-cases (starts_with (codes "0x") code)) [
      | inl e ↦
          let cut : strip_0x code ≡ drop 2 code = stripped code e in
          let fits' : IsHexText (drop 2 code) = subst IsHexText cut fits in
          let once : strip_0x (drop 2 code) ≡ drop 2 code =
            strip_0x_of_long (drop 2 code) fits'.1 in
          rw e (
            hex_to_bytes_of_IsHexText (drop 2 code) (subst IsHexText (sym once) fits')
            ∙ ap (λ t. ok (parse_pairs t)) (once ∙ sym cut)
            ∙ ap ok same)
      | inr e ↦ rw e h
    ]
  where
    stripped : (s : Text) → starts_with (codes "0x") s ≡ true → strip_0x s ≡ drop 2 s
    stripped s e = unfold strip_0x in rw e refl

accepted_bytecode :
    (code : Text) → refused_bytecode code ≡ none → is_valid_hex code at_least_two ≡ true
unfolding refused_bytecode
accepted_bytecode code h = ground arith

not_short : (bs : List ℕ) → too_short (some 2) (2 * length bs) ≡ false → 1 ≤ length bs
not_short bs h = ground arith

-- A bytecode that the page does not refuse is one that the encoding of the transaction reads, as one
-- byte or more.
refused_bytecode-payload_to_bytes :
    (code : Text)
    → refused_bytecode code ≡ none
    → (bs : List ℕ) × (payload_to_bytes code ≡ ok bs) × (1 ≤ length bs)
refused_bytecode-payload_to_bytes code h =
    let (bs, read, prefix, short, long) =
      (is_valid_hex_iff code at_least_two).0 (accepted_bytecode code h) in
    (bs, payload_to_bytes_of_hex code bs read, not_short bs short)
