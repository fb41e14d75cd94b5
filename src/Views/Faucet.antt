-- ===== src/Views/Faucet.antt =====
-- src/components/views/FaucetView.tsx: claims of the faucet, with their wait of a day. `Date.now()` is read
-- once for the end of a claim. What `localStorage` holds is what was written to it.
pub mod Waits
use resistance_network.Common.{
  ℕ, ◌+◌, ◌-◌, ◌*◌, ◌/◌, ◌%◌, ◌≤◌, ◌≡◌, ◌≢◌, Bool, true, false, not, ◌&&◌, List, [], ◌∷◌, ◌++◌,
  Text, codes, take, ◌==◌, if◌then◌else◌, Option, none, some, Result, ok, err, Error, thrown,
}
use resistance_network.Common.Int.{pos}
use resistance_network.TxHelpers.BigInt.{print_bigint}
use resistance_network.Json.{Decimal, Request, Reply}
use resistance_network.Api.{State}
use resistance_network.Api.Writes.{FaucetClaim, faucet_amount, faucet_claim, mock_hash}

abbrev pub cooldown_ms : ℕ
cooldown_ms = 86400000

pub record ClaimHistory : Type 0 where
  pub hash : Text
  pub amount : Decimal
  pub timestamp : ℕ
  pub address : Text

pub data MessageKind : Type 0 where
  success : MessageKind
  failure : MessageKind

-- What the component holds and keeps. `stored` is the value of its key in `localStorage`; `refreshes`
-- counts the calls of the wallet's `refreshBalance`; `claimant` is the address of a claim under way.
pub record Faucet : Type 0 where
  pub claiming : Bool
  pub last_claim : Option ℕ
  pub history : List ClaimHistory
  pub message : Option (MessageKind × Text)
  pub stored : Option (ℕ × List ClaimHistory)
  pub refreshes : ℕ
  pub claimant : Text

-- `timestamp || null`
abbrev pub or_null : ℕ → Option ℕ
or_null t = if t == 0 then none else some t

-- The effect on mounting.
abbrev pub loaded_claim : Option (ℕ × List ClaimHistory) → Option ℕ
loaded_claim none = none
loaded_claim (some (t, h)) = or_null t

abbrev pub loaded_history : Option (ℕ × List ClaimHistory) → List ClaimHistory
loaded_history none = []
loaded_history (some (t, h)) = h

unfoldable pub mounted : Option (ℕ × List ClaimHistory) → Faucet
mounted kept = record {
  claiming = false;
  last_claim = loaded_claim kept;
  history = loaded_history kept;
  message = none;
  stored = kept;
  refreshes = 0;
  claimant = [];
}

-- `Math.max(0, COOLDOWN_MS - (now - last))`
abbrev pub remaining_of : ℕ → ℕ → ℕ
remaining_of now last = cooldown_ms + last - now

-- A claim at the time 0 counts as none.
unfoldable pub cooldown_remaining : ℕ → Option ℕ → ℕ
cooldown_remaining now none = 0
cooldown_remaining now (some last) = if last == 0 then 0 else remaining_of now last

-- Whether the wallet is connected, and its address.
pub record WalletView : Type 0 where
  pub connected : Bool
  pub address : Option Text

unfoldable pub can_claim : ℕ → WalletView → Faucet → Bool
can_claim now w f = w.connected && cooldown_remaining now f.last_claim == 0 && not f.claiming

abbrev pub hours : ℕ → ℕ
hours ms = ms / 3600000

abbrev pub minutes : ℕ → ℕ
minutes ms = (ms % 3600000) / 60000

abbrev pub seconds : ℕ → ℕ
seconds ms = (ms % 60000) / 1000

unfoldable pub format_cooldown : ℕ → Text
format_cooldown ms =
    print_bigint (pos (hours ms))
    ++ codes "h "
    ++ print_bigint (pos (minutes ms))
    ++ codes "m "
    ++ print_bigint (pos (seconds ms))
    ++ codes "s"

-- The first part of `handleClaim`, up to the request; `now` is the time of the last rendering.
unfoldable pub begin_for : ℕ → WalletView → Option Text → Faucet → Faucet
begin_for now w none f = f
begin_for now w (some []) f = f
begin_for now w (some (c ∷ a)) f =
    if can_claim now w f then record f { claiming = true; message = none; claimant = c ∷ a } else f

unfoldable pub begin_claim : ℕ → WalletView → Faucet → Faucet
begin_claim now w f = begin_for now w w.address f

-- What the request came to: the faucet of the node, or without one a made-up claim.
unfoldable pub ask_faucet :
    (Request → Reply FaucetClaim) → Text → Text → State → State × Result FaucetClaim
ask_faucet net address random s =
    if s.rpc_mode
    then faucet_claim net address random s
    else (s, ok (record { hash = mock_hash random; amount = faucet_amount }))

-- `err instanceof Error ? err.message : …`; the client throws nothing but an Error with a message.
abbrev pub message_of : Error → Text
message_of (thrown m) = m
message_of _ = codes "Error al reclamar. Intenta de nuevo."

-- The rest of `handleClaim`, once the request is settled, `finally` included. The text of the amount 1000
-- is that of the locale.
unfoldable pub end_claim : ℕ → Text → Result FaucetClaim → Faucet → Faucet
end_claim now amount_text (ok claim) f =
    let kept = take 10 (
      record { hash = claim.hash; amount = claim.amount; timestamp = now; address = f.claimant }
      ∷ f.history) in
    record f {
      history = kept;
      last_claim = some now;
      stored = some (now, kept);
      refreshes = f.refreshes + 1;
      message = some (
        success,
        amount_text
            ++ codes " RSTN reclamados exitosamente. Tu balance se ha actualizado en la red.",
      );
      claiming = false;
    }
end_claim now amount_text (err e) f = record f {
  message = some (failure, message_of e);
  claiming = false;
}

-- What can happen to the component, at which time. A click comes after the rendering that it is about;
-- the component is not closed while a claim is under way; the clock starts behind 0 and never goes back.
pub data Reachable : ℕ → Faucet → Type 0 where
  opened : (now : ℕ) → now ≢ 0 → Reachable now (mounted none)
  waited : {f : Faucet} (now later : ℕ) → now ≤ later → Reachable now f → Reachable later f
  clicked :
      {f : Faucet} (now rendered : ℕ) (w : WalletView)
      → rendered ≤ now
      → Reachable now f
      → Reachable now (begin_claim rendered w f)
  settled :
      {f : Faucet} (now : ℕ) (amount_text : Text) (r : Result FaucetClaim)
      → f.claiming ≡ true
      → Reachable now f
      → Reachable now (end_claim now amount_text r f)
  reopened :
      {f : Faucet} (now : ℕ)
      → f.claiming ≡ false
      → Reachable now f
      → Reachable now (mounted f.stored)
