-- ===== src/Runs/Extension/Dapp.antt =====
-- Runs of the requests of pages, of rstn-wallet/background.js.
use resistance_network.Common.{
  ◌≡◌, refl, true, false, List, [], ◌∷◌, ◌++◌, Text, codes, Option, none, some, All, text_eq,
}
use resistance_network.WalletExt.Background.Messages.{Moment}
use resistance_network.WalletExt.Dapp.{Kind, Payload, DappRequest, Sender, origin_of, dapp_id}
use resistance_network.WalletExt.Dapp.Events.{
  Event, requested, confirmed, timed_out, request, run, started,
}
use resistance_network.WalletExt.Dapp.Waiting.{count}
use resistance_network.WalletExt.Dapp.Settling.{request-run}
use resistance_network.WalletExt.Dapp.Answers.{IsConsented, run-IsConsented}
use resistance_network.Runs.Extension.Simple.{simple_platform}
use resistance_network.Runs.Extension.{created_wallet, some_moment, created_wallet-closed}

abbrev some_request : DappRequest
some_request = record {
  kind = Kind.dapp_sign;
  message = codes "hello";
  to = [];
  amount = [];
  tx_type = none;
  tx_type_camel = none;
  gas_price = none;
  gas_price_camel = none;
  gas_limit = none;
  gas_limit_camel = none;
  payload = Payload.absent;
}

abbrev some_sender : Sender
some_sender = record { tab_url = some (codes "https://a.b/c"); origin = none }

abbrev some_origin : Text → Option Text
some_origin url = some (codes "https://a.b")

sender_known : text_eq (origin_of some_origin some_sender) (codes "unknown") ≡ false
unfolding origin_of
sender_known = refl

request-run_example :
    count
      (dapp_id 1)
      (run simple_platform some_origin
        (((some_moment, confirmed (dapp_id 1) true) ∷ [])
          ++ (some_moment, timed_out (dapp_id 1)) ∷ [])
        (request simple_platform some_origin some_moment some_sender some_request
          (started created_wallet)).0).1
    ≡ 1
request-run_example =
    request-run simple_platform some_origin some_moment some_moment some_sender some_request
      (started created_wallet) ((some_moment, confirmed (dapp_id 1) true) ∷ [])
      created_wallet-closed sender_known

abbrev some_events : List (Moment × Event)
some_events =
    (some_moment, requested some_sender some_request)
    ∷ (some_moment, confirmed (dapp_id 1) true)
    ∷ []

run-IsConsented_example :
    All
      (IsConsented simple_platform some_origin (started created_wallet) some_events)
      (run simple_platform some_origin some_events (started created_wallet)).1
run-IsConsented_example =
    run-IsConsented simple_platform some_origin some_events (started created_wallet)
