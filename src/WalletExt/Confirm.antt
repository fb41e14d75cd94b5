-- ===== src/WalletExt/Confirm.antt =====
-- rstn-wallet/confirm.js and the escaping of rstn-wallet/popup.js: what the extension puts into its pages of
-- texts that it does not trust. `JSON.parse` of what a request shows is an argument.
pub mod Escaping
use resistance_network.Common.{
  ℕ, Bool, true, false, List, [], ◌∷◌, ◌++◌, Text, codes, text_eq, take, ◌==◌, if◌then◌else◌,
  Option, none, some,
}
use resistance_network.Api.{text_or}

-- `s.replace(/c/g, by)`
unfoldable pub replace_all : ℕ → Text → Text → Text
replace_all c by [] = []
replace_all c by (x ∷ s) = let rest = replace_all c by s in if x == c then by ++ rest else x ∷ rest

unfoldable pub esc : Text → Text
esc s = replace_all b'\'' (codes "&#39;") (
    replace_all b'"' (codes "&quot;") (
      replace_all b'>' (codes "&gt;")
        (replace_all b'<' (codes "&lt;") (replace_all b'&' (codes "&amp;") s))))

-- What `JSON.parse(meta)` gives: the properties that are shown, unless it throws.
pub record Meta : Type 0 where
  pub message : Option Text
  pub to : Option Text
  pub amount : Option Text
  pub tx_type_snake : Option Text
  pub tx_type_camel : Option Text

abbrev pub no_meta : Meta
no_meta = record {
  message = none;
  to = none;
  amount = none;
  tx_type_snake = none;
  tx_type_camel = none;
}

abbrev pub meta_or_empty : Option Meta → Meta
meta_or_empty none = no_meta
meta_or_empty (some m) = m

-- The text to sign: the message, or the whole of `meta` if it is no JSON.
abbrev pub message_shown : Text → Option Meta → Text
message_shown meta none = meta
message_shown meta (some m) = text_or m.message []

-- What is shown of a request: the title, and the untrusted texts in it.
pub record Detail : Type 0 where
  pub title : Text
  pub shown : List Text

unfoldable pub render_detail : Text → Text → Option Meta → Detail
render_detail req_type meta parsed =
    if text_eq req_type (codes "DAPP_CONNECT")
    then record { title = codes "Connect to dApp"; shown = [] }
    else if text_eq req_type (codes "DAPP_GET_BALANCE")
    then record { title = codes "Share Balance"; shown = [] }
    else if text_eq req_type (codes "DAPP_SIGN")
    then record {
      title = codes "Sign Message";
      shown = take 500 (esc (message_shown meta parsed)) ∷ [];
    }
    else if text_eq req_type (codes "DAPP_SEND_TX")
    then (let m = meta_or_empty parsed in
        record {
          title = codes "Send Transaction";
          shown =
              esc (text_or m.tx_type_snake (text_or m.tx_type_camel (codes "Transfer")))
              ∷ take 60 (esc (text_or m.to (codes "—")))
              ∷ esc (text_or m.amount (codes "0"))
              ∷ [];
        })
    else record { title = codes "Unknown Request"; shown = [] }
