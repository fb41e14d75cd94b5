-- ===== src/Runs/Extension/Popup.antt =====
-- Runs of rstn-wallet/popup.js and rstn-wallet/confirm.js.
use resistance_network.Common.{◌≡◌, refl, codes, All, none, some, trim_start}
use resistance_network.Validation.{parse_prefix}
use resistance_network.Views.Number.{parse_float, parse_unsigned, span_digits}
use resistance_network.WalletExt.Confirm.{esc, Meta, no_meta, render_detail}
use resistance_network.WalletExt.Confirm.Escaping.{
  IsInert, read_html, esc-read_html, render_detail-IsInert,
}
use resistance_network.WalletExt.Popup.{send_error, exceeds, shorten_address}

esc-read_html_example :
    All IsInert (esc (codes "<b>\"R&D\"</b>"))
    × (read_html none (esc (codes "<b>\"R&D\"</b>")) ≡ codes "<b>\"R&D\"</b>")
esc-read_html_example = esc-read_html (codes "<b>\"R&D\"</b>")

-- A message to sign with a tag in it.
abbrev tagged_meta : Meta
tagged_meta = record no_meta { message = some (codes "<img src=x onerror='f()'>") }

render_detail-IsInert_example :
    All (All IsInert) (render_detail (codes "DAPP_SIGN") (codes "{}") (some tagged_meta)).shown
render_detail-IsInert_example =
    render_detail-IsInert (codes "DAPP_SIGN") (codes "{}") (some tagged_meta)

short_run : shorten_address (codes "rstn1abcdefghij") ≡ codes "rstn1abc...efghij"
unfolding shorten_address
short_run = refl

enough_run : send_error (codes "rstn1ab") (codes "1.5") (codes "1.501") ≡ none
unfolding send_error exceeds parse_float parse_unsigned span_digits parse_prefix trim_start
enough_run = refl

too_much_run :
    send_error (codes "rstn1ab") (codes "1.5") (codes "1.5") ≡ some (codes "Insufficient balance")
unfolding send_error exceeds parse_float parse_unsigned span_digits parse_prefix trim_start
too_much_run = refl
