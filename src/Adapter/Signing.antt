-- ===== src/Adapter/Signing.antt =====
-- src/lib/wallet.ts: `sign` of the class `RstnWallet`, with the extension and without it.
use resistance_network.Common.{
  ℕ, ◌+◌, Bool, false, ◌&&◌, Option, none, some, List, [], ◌∷◌, map, Text, codes, leb,
  if◌then◌else◌, Result, ok, err, thrown, ◌>>=◌,
}
use resistance_network.Common.Int.{pos}
use resistance_network.TxHelpers.BigInt.{Num, int, no_int}
use resistance_network.TxHelpers.Encode.{UnsignedTransaction, or_default}
use resistance_network.Json.{
  Json, Items, nil, cons, end, field, null, num, str, arr, obj, whole, Request, Reply,
}
use resistance_network.Sdk.{
  Crypto, Wallet, SignedTransaction, NodeTransaction, sign_tx, to_node_format,
}
use resistance_network.Sdk.Builder
use resistance_network.Api.{State, text_or}
use resistance_network.Api.Data.{WalletPortfolio}
use resistance_network.Api.Mock.Stats.{wallet_portfolio}
use resistance_network.Api.Reads.{read}
use resistance_network.Api.Writes.{submit_transaction}
use resistance_network.Adapter.{Kind, kind_name, SignParams, Receipt, SignReply, Extension, Adapter}

abbrev pub lower_case : ℕ → ℕ
lower_case c = if leb b'A' c && leb c b'Z' then c + 32 else c

abbrev pub to_lower_case : Text → Text
to_lower_case s = map lower_case s

-- The `switch` of `sign`.
unfoldable pub choose : SignParams → Num → UnsignedTransaction
choose p nonce = elim p.kind [
  | Kind.contract_deploy ↦ Builder.contract_deploy p.value nonce (text_or p.data_text (codes "0x"))
  | Kind.contract_call ↦ Builder.contract_call p.to p.value nonce (text_or p.data_text (codes "0x"))
  | Kind.stake ↦ Builder.stake p.to p.value nonce
  | Kind.unstake ↦ Builder.unstake p.to p.value nonce
  | Kind.delegate ↦ Builder.delegate p.to p.value nonce
  | Kind.claim ↦ Builder.claim p.to nonce
  | Kind.governance ↦ Builder.governance p.to false nonce
  | Kind.transfer ↦ Builder.transfer p.to p.value nonce
]

-- Behind it: `unsignedTx.txType = params.type.toLowerCase()`.
unfoldable pub unsigned_tx : SignParams → Num → UnsignedTransaction
unsigned_tx p nonce = record (choose p nonce) { tx_type = to_lower_case (kind_name p.kind) }

-- What the extension is asked to sign, before `JSON.stringify`.
abbrev pub sign_message : SignParams → Json
sign_message p = obj (
    field (codes "to") (str p.to) (
      field (codes "value") (str p.value) (
        field (codes "type") (str (kind_name p.kind))
          (field (codes "data") (str (text_or p.data_text [])) end))))

abbrev pub submission : SignParams → Text → Json
submission p signature = obj (
    field (codes "to") (str p.to) (
      field (codes "value") (str p.value) (
        field (codes "type") (str (kind_name p.kind))
          (field (codes "signature") (str signature) end))))

abbrev pub byte_items : List ℕ → Items
byte_items [] = nil
byte_items (b ∷ bs) = cons (whole b) (byte_items bs)

-- A number that is no integer was refused before.
abbrev pub number_json : Num → Json
number_json (int z) = num (record { mantissa = z; places = 0 })
number_json no_int = null

abbrev pub node_json : NodeTransaction → Json
node_json n = obj (
    field (codes "from") (arr (byte_items n.from)) (
      field (codes "to") (arr (byte_items n.to)) (
        field (codes "value") (str n.value) (
          field (codes "nonce") (number_json n.nonce) (
            field (codes "gas_price") (str n.gas_price) (
              field (codes "gas_limit") (number_json n.gas_limit) (
                field (codes "tx_type") (str n.tx_type) (
                  field (codes "payload") (arr (byte_items n.payload))
                    (field (codes "signature") (arr (byte_items n.signature)) end)))))))))

abbrev pub receipt : SignParams → Text → Text → Text → Receipt
receipt p address signature hash = record {
  hash = hash;
  from = address;
  to = p.to;
  value = p.value;
  kind = p.kind;
  fee = codes "0.00021";
  signature = signature;
  status = codes "confirmed";
}

abbrev pub finish : SignParams → Text → Text → State × Result Text → State × Result Receipt
finish p address signature (s, h) = (s, h >>= λ hash. ok (receipt p address signature hash))

-- The answers of the node, whether the page is a development build, and `Math.random`'s text.
module _ (crypto : Crypto) (dev : Bool) (portfolio : Request → Reply (WalletPortfolio × Option Num))
    (net : Request → Reply Text) (random : Text) where
  -- The nonce of `api.getWalletPortfolio`, 0 where it has none.
  unfoldable pub fetch_nonce : Text → State → State × Num
  fetch_nonce address s =
      let (s', reply) =
        read portfolio (codes "rstn_getBalance") (str address ∷ []) (wallet_portfolio, none)
          (wallet_portfolio, none) s in
      (s', or_default reply.1 (int (pos 0)))

  -- The branch of the extension, from its answer on.
  abbrev pub sign_answered : SignParams → Text → Result SignReply → State → State × Result Receipt
  sign_answered p address (err e) s = (s, err e)
  sign_answered p address (ok reply) s =
      if reply.approved
      then finish p address reply.signature
          (submit_transaction net (submission p reply.signature) random s)
      else (s, err (thrown (text_or reply.error (codes "Signing rejected"))))

  -- What is signed and how the node gets it.
  unfoldable pub signed_pair :
      Wallet → SignParams → Num → Result (SignedTransaction × NodeTransaction)
  signed_pair w p nonce = do
    signed ← sign_tx crypto w (unsigned_tx p nonce)
    node ← to_node_format signed
    ok (signed, node)

  abbrev pub submit_pair :
      SignParams
      → Text
      → Result (SignedTransaction × NodeTransaction)
      → State
      → State × Result Receipt
  submit_pair p address (err e) s = (s, err e)
  submit_pair p address (ok (signed, node)) s =
      finish p address signed.signature (submit_transaction net (node_json node) random s)

  -- The branch without the extension.
  unfoldable pub sign_local : Option Wallet → SignParams → Text → State → State × Result Receipt
  sign_local none p address s = (
    s,
    err (
        thrown (
          codes
            "No signing keypair available. Install the RSTN wallet extension to sign transactions.")),
  )
  sign_local (some w) p address s =
      if dev
      then (let (s', nonce) = fetch_nonce address s in
          submit_pair p address (signed_pair w p nonce) s')
      else (
        s,
        err (
            thrown (
              codes
                "In-browser signing is disabled in production. Use the RSTN wallet extension.")),
      )

  -- The function of the extension, if there is one.
  abbrev pub extension_sign : Option Extension → Option (Json → Result SignReply)
  extension_sign none = none
  extension_sign (some e) = e.sign

  abbrev pub sign_as : Option Text → Adapter → SignParams → State → State × Result Receipt
  sign_as none a p s = (s, err (thrown (codes "Wallet not connected")))
  sign_as (some []) a p s = (s, err (thrown (codes "Wallet not connected")))
  sign_as (some (c ∷ address)) a p s = elim (extension_sign a.extension) [
    | none ↦ sign_local a.sdk_wallet p (c ∷ address) s
    | some f ↦ sign_answered p (c ∷ address) (f (sign_message p)) s
  ]

  unfoldable pub sign : Adapter → SignParams → State → State × Result Receipt
  sign a p s = sign_as a.address a p s
