-- ===== src/Runs/Extension/Page.antt =====
-- Runs of the requests of a page, rstn-wallet/inpage.js and rstn-wallet/content-script.js.
use resistance_network.Common.{
  ◌≡◌, refl, true, List, [], ◌∷◌, ◌++◌, Text, codes, text_eq, if◌then◌else◌, none, some, arith,
}
use resistance_network.Json.{str}
use resistance_network.WalletExt.Page.{
  Properties, Posted, Page, loaded, send_request, receive, Event, received, expired, run,
  set_property, spread, forward,
}
use resistance_network.WalletExt.Page.Promises.{count}
use resistance_network.WalletExt.Page.Outcomes.{send_request-run, receive-run}
use resistance_network.WalletExt.Page.Forwarding.{last_or, property_of, forward-property_of}

-- An answer that a request gets before its timer fires.
abbrev answered : List Event
answered = received true (codes "rstn-wallet") 0 (some (record { error = none; body = [] })) ∷ []

send_request-run_example :
    count loaded.next_id
      (run
        (answered ++ expired loaded.next_id ∷ [])
        (send_request (codes "DAPP_CONNECT") [] loaded).0).1
    ≡ 1
send_request-run_example =
    send_request-run (codes "DAPP_CONNECT") [] loaded answered (unfold loaded in refl)

abbrev asking : Page
asking = record { pending = 0 ∷ []; timers = 0 ∷ []; next_id = 1; posted = [] }

receive-run_example :
    count 0 (run (expired 0 ∷ []) (receive true (codes "rstn-wallet") 0 none asking).0).1 ≡ 0
receive-run_example = receive-run 0 asking (expired 0 ∷ []) (omega arith) refl

-- A message that asks for a connection, with another type in its payload.
abbrev smuggled : Posted
smuggled = record {
  source = codes "rstn-dapp";
  id = 0;
  kind = codes "DAPP_CONNECT";
  payload = (codes "type", str (codes "WALLET_GET_SEED")) ∷ [];
}

abbrev sent_properties : Properties
sent_properties = (codes "type", str (codes "WALLET_GET_SEED")) ∷ []

smuggled_run : forward true smuggled ≡ some sent_properties
unfolding forward spread set_property
smuggled_run = refl

forward-property_of_example :
    (true ≡ true)
    × (smuggled.source ≡ codes "rstn-dapp")
    × ((i : Text)
        → property_of i sent_properties
          ≡ last_or i
              (if text_eq (codes "type") i then some (str smuggled.kind) else none)
              smuggled.payload)
forward-property_of_example = forward-property_of true smuggled sent_properties smuggled_run
