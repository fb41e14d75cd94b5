-- ===== src/WalletExt/Popup.antt =====
-- rstn-wallet/popup.js: its forms, over the messages of the service worker. Amounts are exact decimals,
-- where the program rounds them to floats; the message that the engine throws on a property of
-- `undefined` is an argument.
pub mod Passwords
use resistance_network.Common.{
  ℕ, ◌+◌, ◌*◌, ◌^◌, ◌-◌, Bool, true, false, not, ◌&&◌, ◌||◌, List, [], ◌∷◌, ◌++◌, Text, codes,
  text_eq, length, take, drop, ltb, trim, starts_with, if◌then◌else◌, Option, none, some, Error,
  thrown,
}
use resistance_network.Common.Int.{pos, negsuc}
use resistance_network.Json.{Decimal}
use resistance_network.Views.Number.{Float, nan, infinite, finite, parse_float, is_at_most_zero}
use resistance_network.WalletExt.Mnemonic.{words_of, fits_count}
use resistance_network.WalletExt.Background.{
  Wallet, Reply, no_reply, failure, type_failure, created, open_wallet, refusal,
}
use resistance_network.WalletExt.Background.Messages.{Message}

pub data View : Type 0 where
  onboarding locked dashboard import_form receive send_form confirm backup settings change_pw : View

-- The view, the message under the form, and `pendingTx`: the recipient and the amount.
pub record Popup : Type 0 where
  pub view : View
  pub error : Text
  pub pending_tx : Option (Text × Text)
  pub toast : Option Text

-- The service worker's handler; and what `sendMessage` makes of its answers.
abbrev pub Handler : Type 0
Handler = Message → Wallet → Wallet × Reply

unfoldable pub delivered : Reply → Reply
delivered no_reply = refusal (codes "Wallet service worker timeout (reopen popup)")
delivered r = r

abbrev pub ask : Handler → Message → Wallet → Wallet × Reply
ask handler message w = let (w', r) = handler message w in (w', delivered r)

abbrev pub text_or_other : Text → Text → Text
text_or_other [] d = d
text_or_other (c ∷ m) d = c ∷ m

abbrev pub error_text : (Error → Text) → Error → Text
error_text native (thrown m) = m
error_text native e = native e

-- `resp.success ? none : resp.error || fallback`, for the messages that succeed or fail
unfoldable pub failed_with : (Error → Text) → Text → Text → Reply → Option Text
failed_with native type_text fallback (failure e) =
    some (text_or_other (error_text native e) fallback)
failed_with native type_text fallback type_failure = some (text_or_other type_text fallback)
failed_with native type_text fallback r = none

-- `loadDashboard`, by the state of the wallet
abbrev pub dashboard_of : Reply → View
dashboard_of (open_wallet account portfolio) = View.dashboard
dashboard_of r = View.locked

unfoldable pub load_dashboard : Handler → Wallet → Popup → Wallet × Popup
load_dashboard handler w p =
    let (w', r) = ask handler Message.wallet_get_state w in (w', record p { view = dashboard_of r })

abbrev pub unless_failed : Option Text → Popup → Wallet × Popup → Wallet → Wallet × Popup
unless_failed (some m) p done w = (w, record p { error = m })
unless_failed none p done w = done

-- The checks of a new password.
unfoldable pub password_error : Text → Text → Text → Text → Option Text
password_error short unequal pw confirm_pw =
    if ltb (length pw) 8
    then some short
    else if not (text_eq pw confirm_pw)
    then some unequal
    else none

module _ (handler : Handler) (native : Error → Text) (type_text : Text) where
  -- What follows a wallet that was made: its phrase is shown, if there is one.
  unfoldable pub after_create : Reply → Wallet → Popup → Wallet × Popup
  after_create (created address (c ∷ phrase)) w p =
      (w, record p { view = View.backup; toast = some (codes "Save your backup phrase!") })
  after_create r w p = load_dashboard handler w p

  unfoldable pub create_wallet : Text → Text → Wallet → Popup → Wallet × Popup
  create_wallet pw confirm_pw w p =
      elim (password_error (codes "Password must be at least 8 characters")
        (codes "Passwords do not match") pw confirm_pw) [
          | some m ↦ (w, record p { error = m })
          | none ↦
              let (w', r) = ask handler (Message.wallet_create pw) w in
              let p' = record p { error = [] } in
              unless_failed (failed_with native type_text (codes "Failed to create wallet") r) p'
                (after_create r w' p') w'
        ]

  unfoldable pub import_wallet : Text → Text → Text → Wallet → Popup → Wallet × Popup
  import_wallet value pw confirm_pw w p =
      if not (fits_count (words_of value))
      then (w, record p { error = codes "Seed phrase must be 12 or 24 words" })
      else elim (password_error (codes "Password must be at least 8 characters")
          (codes "Passwords do not match") pw confirm_pw) [
            | some m ↦ (w, record p { error = m })
            | none ↦
                let (w', r) = ask handler (Message.wallet_import (trim value) pw) w in
                let p' = record p { error = [] } in
                unless_failed (failed_with native type_text (codes "Failed to import wallet") r) p'
                  (load_dashboard handler w' p') w'
          ]

  abbrev pub incorrect : Option Text → Option Text
  incorrect none = none
  incorrect (some m) = some (codes "Incorrect password")

  unfoldable pub unlock_wallet : Text → Wallet → Popup → Wallet × Popup
  unlock_wallet pw w p =
      let (w', r) = ask handler (Message.wallet_unlock pw) w in
      unless_failed (incorrect (failed_with native type_text [] r)) p (load_dashboard handler w' p)
        w'

  unfoldable pub lock_wallet : Wallet → Popup → Wallet × Popup
  lock_wallet w p = ((ask handler Message.wallet_lock w).0, record p { view = View.locked })

  unfoldable pub change_password : Text → Text → Text → Wallet → Popup → Wallet × Popup
  change_password old_pw new_pw confirm_pw w p =
      elim (password_error (codes "New password must be at least 8 characters")
        (codes "New passwords do not match") new_pw confirm_pw) [
          | some m ↦ (w, record p { error = m })
          | none ↦
              let (w', r) = ask handler (Message.wallet_change_password old_pw new_pw) w in
              let p' = record p { error = [] } in
              unless_failed (failed_with native type_text (codes "Failed to change password") r) p'
                (w', record p' { toast = some (codes "Password updated"); view = View.settings }) w'
        ]

  -- The send button of the form "confirm", up to the answer.
  unfoldable pub confirm_send : Wallet → Popup → Wallet × Popup
  confirm_send w p = elim p.pending_tx [
    | none ↦ (w, record p { error = codes "No pending transaction" })
    | some tx ↦
        let (w', r) = ask handler (Message.wallet_send tx.0 tx.1) w in
        let p' = record p { error = [] } in
        unless_failed (failed_with native type_text (codes "Failed to send") r) p'
          (w', record p' { pending_tx = none }) w'
  ]

-- `parseFloat(text) || 0`
abbrev pub zero_decimal : Decimal
zero_decimal = record { mantissa = pos 0; places = 0 }

abbrev pub nonnegative : Decimal → ℕ
nonnegative d = elim d.mantissa [ pos n ↦ n | negsuc n ↦ 0 ]

-- `amount + 0.001 > available`, of an amount above zero; what is below zero is less than any amount, and
-- so is what is zero.
unfoldable pub exceeds : Decimal → Decimal → Bool
exceeds a b =
    ltb (nonnegative b * 10 ^ (a.places + 3))
      ((nonnegative a * 1000 + 10 ^ a.places) * 10 ^ b.places)

abbrev pub insufficient : Float → Float → Bool
insufficient nan b = false
insufficient (infinite minus) (infinite false) = false
insufficient (infinite minus) b = not minus
insufficient (finite a) nan = exceeds a zero_decimal
insufficient (finite a) (infinite minus) = minus
insufficient (finite a) (finite b) = exceeds a b

-- The message that refuses a transfer, or none; `available` is the balance shown.
unfoldable pub send_error : Text → Text → Text → Option Text
send_error to amount available =
    if not (starts_with (codes "rstn1") to)
    then some (codes "Invalid recipient address (must start with rstn1)")
    else if text_eq amount [] || is_at_most_zero (parse_float amount)
    then some (codes "Invalid amount")
    else if insufficient (parse_float amount) (parse_float available)
    then some (codes "Insufficient balance")
    else none

unfoldable pub submit_send : Text → Text → Text → Popup → Popup
submit_send value amount available p = elim (send_error (trim value) amount available) [
  | some m ↦ record p { error = m }
  | none ↦ record p { error = []; pending_tx = some (trim value, amount); view = View.confirm }
]

unfoldable pub cancel_send : Popup → Popup
cancel_send p = record p { pending_tx = none; view = View.send_form }

-- `shortenAddress`
unfoldable pub shorten_address : Text → Text
shorten_address [] = codes "—"
shorten_address (c ∷ a) =
    if ltb (length (c ∷ a)) 12
    then c ∷ a
    else take 8 (c ∷ a) ++ (codes "..." ++ drop (length (c ∷ a) - 6) (c ∷ a))
