-- ===== src/Runs/Stores.antt =====
-- Runs of src/hooks/use-toast.ts, of the hook of src/lib/wallet.ts and of src/lib/bridge-api.ts.
use resistance_network.Common.{ℕ, ◌≡◌, refl, true, [], ◌∷◌, codes, none, some, ok, err, thrown}
use resistance_network.TxHelpers.Hex.{to_hex}
use resistance_network.TxHelpers.BigInt.{print_bigint, print_loop}
use resistance_network.Sdk.{Crypto, generate, derive_address}
use resistance_network.Toasts.{
  Store, reducer, dispatch, toast, empty_store, shown, Reachable, start, step,
}
use resistance_network.Toasts.Limit.{IsTidy, Reachable-IsTidy}
use resistance_network.Adapter.{loaded, connect}
use resistance_network.Adapter.Session
use resistance_network.Adapter.Session.{
  Page, new_page, connect_page, sign_guard, begin_connect, settle_connect, begun, settled,
  mount_page, connect_elsewhere, alone_start, alone_step,
}
use resistance_network.Adapter.Session.Agreement.{
  IsInStep, Alone-IsInStep, connect_elsewhere-mount_page,
}

-- Two toasts after each other; the second is dismissed.
abbrev second : Store ℕ
second = (toast 20 (toast 10 empty_store).1).1

second_run : second.toasts ≡ record { id = codes "2"; open_flag = true; content = 20 } ∷ []
unfolding toast dispatch reducer print_bigint print_loop
second_run = refl

second-Reachable : Reachable second
second-Reachable = step (step start (shown 10)) (shown 20)

Reachable-IsTidy_example : IsTidy second
Reachable-IsTidy_example = Reachable-IsTidy second second-Reachable

abbrev store_crypto : Crypto
store_crypto = record {
  keccak_512 = λ m. 171 ∷ [];
  keygen = λ seed. record { public_key = 1 ∷ []; secret_key = 9 ∷ [] };
  sign = λ m k. k;
  verify = λ s m p. true;
}

-- A component that has begun to connect and got an address.
abbrev joined : Page
joined =
    connect_page store_crypto none (loaded [])
      (record new_page { state = begin_connect new_page.state })

joined-Alone : Session.Alone store_crypto joined
unfolding Session.take_up
joined-Alone = alone_step (alone_step (alone_start Session.start) begun) (settled none (loaded []))

Alone-IsInStep_example : IsInStep joined
Alone-IsInStep_example = Alone-IsInStep store_crypto joined joined-Alone

-- The local keys of this page have the address.
joined_outcome : (connect store_crypto none (loaded []) new_page.adapter).1 ≡ ok (codes "rstn1ab")
unfolding connect generate derive_address to_hex
joined_outcome = refl

connect_elsewhere-mount_page_example :
    ((connect_elsewhere store_crypto none (loaded []) (mount_page new_page)).adapter.address
      ≡ some (codes "rstn1ab"))
    × (sign_guard (connect_elsewhere store_crypto none (loaded []) (mount_page new_page)).state
        ≡ err (thrown (codes "Wallet not connected")))
    × (sign_guard
          (mount_page (connect_elsewhere store_crypto none (loaded []) (mount_page new_page))).state
        ≡ ok (codes "rstn1ab"))
connect_elsewhere-mount_page_example =
    connect_elsewhere-mount_page store_crypto none (loaded []) new_page b'r' (codes "stn1ab") refl
      joined_outcome

joined_run : sign_guard joined.state ≡ ok (codes "rstn1ab")
unfolding connect generate derive_address to_hex sign_guard settle_connect
joined_run = refl
