-- ===== src/WalletExt/Dapp/Events.antt =====
-- rstn-wallet/background.js: what happens in the service worker, with the replies that it sends. A
-- decision names an identifier, which any message may carry; the timer of a request fires 120 seconds
-- behind it.
use resistance_network.Common.{
  Bool, false, not, List, [], ◌∷◌, ◌++◌, Text, codes, text_eq, keep, find, Option, none, some,
  if◌then◌else◌,
}
use resistance_network.WalletExt.Platform.{Platform}
use resistance_network.WalletExt.Background.{Wallet, closed}
use resistance_network.WalletExt.Background.Messages.{Message, Moment, handle_message}
use resistance_network.WalletExt.Dapp.{
  DappRequest, Sender, DappReply, refused, wallet_reply, Pending, Worker, origin_of,
  request_confirmation, finish,
}

pub data Event : Type 0 where
  requested : Sender → DappRequest → Event
  confirmed : (id : Text) (approved : Bool) → Event
  timed_out : (id : Text) → Event
  -- a message of another type, from a page of the extension or through a content script, which hands
  -- over messages of every type
  told : Message → Event

-- What is sent: the identifier of the request that it answers, unless a message is answered at once.
abbrev pub Output : Type 0
Output = List (Option Text × DappReply)

abbrev pub pending_of : Text → List Pending → Option Pending
pending_of id ps = find (λ p. text_eq p.id id) ps

abbrev pub forget_pending : Text → List Pending → List Pending
forget_pending id ps = keep (λ p. not (text_eq p.id id)) ps

module _ (platform : Platform) (url_origin : Text → Option Text) (m : Moment) where
  -- The cases "DAPP_CONNECT" to "DAPP_GET_BALANCE", up to the question to the user.
  unfoldable pub request : Sender → DappRequest → Worker → Worker × Output
  request sender r s =
      if closed s.wallet
      then (s, (none, refused (codes "Wallet locked")) ∷ [])
      else if text_eq (origin_of url_origin sender) (codes "unknown")
      then (s, (none, refused (codes "Untrusted origin")) ∷ [])
      else (request_confirmation r (origin_of url_origin sender) s, [])

  -- An entry is taken out of the map, and its request goes on.
  abbrev pub settle_found : Bool → Option Pending → Text → Worker → Worker × Output
  settle_found approved none id s = (s, [])
  settle_found approved (some p) id s = (
    record s { pending = forget_pending id s.pending },
    (some id, finish platform m approved p.request s.wallet) ∷ [],
  )

  unfoldable pub settle : Bool → Text → Worker → Worker × Output
  settle approved id s = settle_found approved (pending_of id s.pending) id s

  -- The timer rejects what is still there; "DAPP_CONFIRM_RESULT" says what the user chose.
  unfoldable pub react : Event → Worker → Worker × Output
  react (requested sender r) s = request sender r s
  react (confirmed id approved) s = settle approved id s
  react (timed_out id) s = settle false id s
  react (told message) s =
      let answered = handle_message platform m message s.wallet in
      (record s { wallet = answered.0 }, (none, wallet_reply answered.1) ∷ [])

-- Events one after the other, each with what it finds.
unfoldable pub run :
    Platform → (Text → Option Text) → List (Moment × Event) → Worker → Worker × Output
run platform url_origin [] s = (s, [])
run platform url_origin ((m, e) ∷ es) s =
    let here = react platform url_origin m e s in
    let rest = run platform url_origin es here.0 in (rest.0, here.1 ++ rest.1)

-- The service worker as it starts, over a wallet.
abbrev pub started : Wallet → Worker
started w = record { wallet = w; dapp_seq = 0; pending = [] }
