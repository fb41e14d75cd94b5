-- ===== src/WalletExt/Popup/Passwords.antt =====
-- What the forms of rstn-wallet/popup.js let through.
use resistance_network.Common.{
  ◌≤◌, ◌≡◌, ◌↔◌, refl, sym, ap, ◌∙◌, true, false, Text, codes, text_eq, text_eq_sound, text_eq_refl,
  length, ltb, none, arith, Option-cases, inl, inr, Error,
}
use resistance_network.WalletExt.Background.{Wallet}
use resistance_network.WalletExt.Popup.{Popup, Handler, password_error, create_wallet}

-- A new password is taken exactly when it has eight characters or more and was typed twice alike.
password_error_iff :
    (short unequal pw confirm_pw : Text)
    → (password_error short unequal pw confirm_pw ≡ none) ↔ ((8 ≤ length pw) × (pw ≡ confirm_pw))
unfolding password_error
password_error_iff short unequal pw confirm_pw = (
  λ h.
      let same : text_eq pw confirm_pw ≡ true = ground arith in
      (ground arith, text_eq_sound pw confirm_pw same),
  λ h.
      let long : ltb (length pw) 8 ≡ false = ground arith in
      let same : text_eq pw confirm_pw ≡ true = ap (text_eq pw) (sym h.1) ∙ text_eq_refl pw in
      rw (long, same) refl,
)

-- A form with a password that is too short, or typed differently, leaves the wallet alone.
create_wallet-password_error :
    (handler : Handler) (native : Error → Text) (type_text pw confirm_pw : Text) (w : Wallet)
    (p : Popup)
    → ((8 ≤ length pw) × (pw ≡ confirm_pw) → ⊥)
    → (create_wallet handler native type_text pw confirm_pw w p).0 ≡ w
unfolding create_wallet
create_wallet-password_error handler native type_text pw confirm_pw w p h =
    elim (Option-cases (
      password_error (codes "Password must be at least 8 characters")
        (codes "Passwords do not match") pw confirm_pw)) [
          | inl e ↦ absurd (h ((password_error_iff _ _ pw confirm_pw).0 e))
          | inr e ↦ rw (e.1, create_wallet) refl
        ]
