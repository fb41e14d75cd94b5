-- ===== src/Adapter/Guards.antt =====
-- Who can sign.
use resistance_network.Common.{
  ℕ, ◌≡◌, refl, Bool, false, Text, codes, List, ok, err, thrown, Option, none,
}
use resistance_network.TxHelpers.BigInt.{Num}
use resistance_network.Json.{Request, Reply}
use resistance_network.Sdk.{Crypto, generate, derive_address}
use resistance_network.Api.{State}
use resistance_network.Api.Data.{WalletPortfolio}
use resistance_network.Adapter.{Adapter, loaded, SignParams, connect, disconnect}
use resistance_network.Adapter.Signing.{sign, sign_local}

-- Without the extension `connect` succeeds, in a production build too, with a key pair of the page;
-- but in a production build no transaction is then signed, and no request is made.
sign-connect :
    (crypto : Crypto) (portfolio : Request → Reply (WalletPortfolio × Option Num))
    (net : Request → Reply Text) (random : Text) (seed : List ℕ) (a : Adapter) (p : SignParams)
    (s : State)
    → ((connect crypto none (loaded seed) a).1 ≡ ok (generate crypto seed).address)
      × (sign crypto false portfolio net random (connect crypto none (loaded seed) a).0 p s ≡ (
        s,
        err (
            thrown (
              codes
                "In-browser signing is disabled in production. Use the RSTN wallet extension.")),
      ))
unfolding connect sign sign_local generate derive_address
sign-connect crypto portfolio net random seed a p s = (refl, refl)

-- After `disconnect` nothing is signed and no request is made, in whatever state the wallet was.
sign-disconnect :
    (crypto : Crypto) (dev : Bool) (portfolio : Request → Reply (WalletPortfolio × Option Num))
    (net : Request → Reply Text) (random : Text) (a : Adapter) (p : SignParams) (s : State)
    → sign crypto dev portfolio net random (disconnect a) p s
      ≡ (s, err (thrown (codes "Wallet not connected")))
unfolding sign disconnect
sign-disconnect crypto dev portfolio net random a p s = refl
