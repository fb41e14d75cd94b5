-- ===== src/Adapter/Session.antt =====
-- src/lib/wallet.ts: the hook `useWallet`, the state of one component over the shared adapter. Errors are
-- kept whole, in place of their messages. A call that another component began, be it beside this one or
-- taken off the page, changes the adapter, and not the state of this component. React's rendering and the
-- timer of the balance are left out: a balance may arrive at any time.
pub mod Agreement
use resistance_network.Common.{
  String, Bool, true, false, List, [], ◌∷◌, Text, codes, Option, none, some, Result, ok, err, Error,
  thrown,
}
use resistance_network.Sdk.{Crypto}
use resistance_network.Api.Data.{WalletPortfolio}
use resistance_network.Adapter.{Extension, Adapter, SdkLoad, new_adapter, connect, disconnect}

pub data WalletStatus : Type 0 where
  disconnected connecting connected error : WalletStatus

pub record WalletState : Type 0 where
  pub status : WalletStatus
  pub address : Option Text
  pub balance : String
  pub staked : String
  pub error : Option Error

abbrev pub initial_state : WalletState
initial_state = record {
  status = WalletStatus.disconnected;
  address = none;
  balance = "0";
  staked = "0";
  error = none;
}

-- The answer of `api.getWalletPortfolio`, in `fetchBalance`.
unfoldable pub balance_arrived : WalletPortfolio → WalletState → WalletState
balance_arrived p s = record s { balance = p.balance; staked = p.staked }

-- `connect` up to the call of the adapter, and behind it.
unfoldable pub begin_connect : WalletState → WalletState
begin_connect s = record s { status = WalletStatus.connecting; error = none }

unfoldable pub settle_connect : Result Text → WalletState → WalletState
settle_connect (ok address) s = record {
  status = WalletStatus.connected;
  address = some address;
  balance = "0";
  staked = "0";
  error = none;
}
settle_connect (err e) s = record s { status = WalletStatus.error; error = some e }

-- The effect that runs once: it takes up the address of the adapter, if it has one.
unfoldable pub take_up : Option Text → WalletState → WalletState
take_up none s = s
take_up (some []) s = s
take_up (some (c ∷ address)) s = record s {
  status = WalletStatus.connected;
  address = some (c ∷ address);
  balance = "0";
  staked = "0";
}

-- The guard of `sign`: the address, or what is thrown.
abbrev pub guard_as : WalletStatus → Option Text → Result Text
guard_as WalletStatus.connected (some (c ∷ address)) = ok (c ∷ address)
guard_as _ _ = err (thrown (codes "Wallet not connected"))

unfoldable pub sign_guard : WalletState → Result Text
sign_guard s = guard_as s.status s.address

-- A component, the one that was mounted last, and the adapter.
pub record Page : Type 0 where
  pub state : WalletState
  pub adapter : Adapter

abbrev pub new_page : Page
new_page = record { state = initial_state; adapter = new_adapter }

abbrev pub connect_page : Crypto → Option Extension → SdkLoad → Page → Page
connect_page crypto e sdk p =
    let (a, r) = connect crypto e sdk p.adapter in
    record { state = settle_connect r p.state; adapter = a }

abbrev pub disconnect_page : Page → Page
disconnect_page p = record { state = initial_state; adapter = disconnect p.adapter }

-- A component is mounted, and runs its effect.
abbrev pub mount_page : Page → Page
mount_page p = record p { state = take_up p.adapter.address initial_state }

-- What a call of another component does when it ends.
abbrev pub connect_elsewhere : Crypto → Option Extension → SdkLoad → Page → Page
connect_elsewhere crypto e sdk p = record p { adapter = (connect crypto e sdk p.adapter).0 }

abbrev pub disconnect_elsewhere : Page → Page
disconnect_elsewhere p = record p { adapter = disconnect p.adapter }

-- What the component that is mounted does, and the answers to its calls, in any order.
pub data OwnStep (crypto : Crypto) : Page → Page → Type 0 where
  begun : {p : Page} → OwnStep crypto p (record p { state = begin_connect p.state })
  settled :
      {p : Page} (e : Option Extension) (sdk : SdkLoad)
      → OwnStep crypto p (connect_page crypto e sdk p)
  left : {p : Page} → OwnStep crypto p (disconnect_page p)
  arrived :
      {p : Page} (b : WalletPortfolio)
      → OwnStep crypto p (record p { state = balance_arrived b p.state })

-- What happens, in any order: this, the mounting of another component, and the ends of calls of others.
pub data Step (crypto : Crypto) : Page → Page → Type 0 where
  own : {p q : Page} → OwnStep crypto p q → Step crypto p q
  mounted : {p : Page} → Step crypto p (mount_page p)
  settled_elsewhere :
      {p : Page} (e : Option Extension) (sdk : SdkLoad)
      → Step crypto p (connect_elsewhere crypto e sdk p)
  left_elsewhere : {p : Page} → Step crypto p (disconnect_elsewhere p)

pub data Reachable (crypto : Crypto) : Page → Type 0 where
  start : Reachable crypto new_page
  step : {p q : Page} → Reachable crypto p → Step crypto p q → Reachable crypto q

-- Mounted on a reachable page, and since then only steps of the component itself.
pub data Alone (crypto : Crypto) : Page → Type 0 where
  alone_start : {p : Page} → Reachable crypto p → Alone crypto (mount_page p)
  alone_step : {p q : Page} → Alone crypto p → OwnStep crypto p q → Alone crypto q
