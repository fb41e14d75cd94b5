-- ===== src/Adapter/Session/Agreement.antt =====
-- The state of a component against the adapter.
use resistance_network.Common.{
  ℕ, ◌≡◌, refl, sym, ap, ◌∙◌, Bool, true, false, [], ◌∷◌, Text, Option, none, some, Result, ok, err,
  ok-injective, if◌then◌else◌, codes, thrown,
}
use resistance_network.Sdk.{Crypto}
use resistance_network.Adapter.{
  Extension, Adapter, ConnectReply, SdkLoad, broken, loaded, accept, make_keys, connect, disconnect,
}
use resistance_network.Adapter.Session.{
  WalletStatus, initial_state, Page, sign_guard, settle_connect, take_up, begin_connect,
  balance_arrived, mount_page, connect_elsewhere, OwnStep, begun, settled, left, arrived, Alone,
  alone_start, alone_step,
}

-- What `connect` does to the address.
abbrev Outcome : Option Text → Adapter × Result Text → Type 0
Outcome old (b, ok address) = b.address ≡ some address
Outcome old (b, err e) = b.address ≡ old

of_if : {A : Type 0} (P : A → Type 0) (b : Bool) (x y : A) → P x → P y → P (if b then x else y)
of_if P true x y h k = h
of_if P false x y h k = k

accept-Outcome : (a : Adapter) (r : Result ConnectReply) → Outcome (a.address) (accept a r)
accept-Outcome a (err e) = refl
accept-Outcome a (ok reply) = of_if (Outcome (a.address)) reply.approved _ _ refl refl

make_keys-Outcome :
    (crypto : Crypto) (sdk : SdkLoad) (a : Adapter) → Outcome a.address (make_keys crypto sdk a)
make_keys-Outcome crypto (broken m) a = refl
make_keys-Outcome crypto (loaded seed) a = refl

connect-Outcome :
    (crypto : Crypto) (e : Option Extension) (sdk : SdkLoad) (a : Adapter)
    → Outcome a.address (connect crypto e sdk a)
unfolding connect
connect-Outcome crypto none sdk a = make_keys-Outcome crypto sdk (record a { extension = none })
connect-Outcome crypto (some e) sdk a =
    of_if (Outcome (a.address)) e.is_rstn _ _
      (accept-Outcome (record a { extension = some e }) e.connect)
      (make_keys-Outcome crypto sdk (record a { extension = some e }))

-- An address that the guards let through.
abbrev usable : Option Text → Option Text
usable none = none
usable (some []) = none
usable (some (c ∷ address)) = some (c ∷ address)

-- A connected component has an address, and a disconnected one has none.
abbrev pub Fits : WalletStatus → Option Text → Type 0
Fits WalletStatus.connected none = ⊥
Fits WalletStatus.disconnected (some address) = ⊥
Fits _ _ = Unit {0}

-- The component shows the address that the adapter signs for.
pub record IsInStep (p : Page) : Type 0 where
  pub same : usable p.state.address ≡ usable p.adapter.address
  pub fits : Fits p.state.status p.state.address

settle-IsInStep :
    (p : Page) (a : Adapter) (r : Result Text)
    → IsInStep p
    → Outcome p.adapter.address (a, r)
    → IsInStep (record { state = settle_connect r p.state; adapter = a })
unfolding settle_connect
settle-IsInStep p a (ok address) w h = record { same = ap usable (sym h); fits = tt }
settle-IsInStep p a (err e) w h = record { same = w.same ∙ ap usable (sym h); fits = tt }

take_up-IsInStep :
    (a : Adapter) (old : Option Text)
    → a.address ≡ old
    → IsInStep (record { state = take_up old initial_state; adapter = a })
unfolding take_up
take_up-IsInStep a none h = record { same = ap usable (sym h); fits = tt }
take_up-IsInStep a (some []) h = record { same = ap usable (sym h); fits = tt }
take_up-IsInStep a (some (c ∷ address)) h = record { same = ap usable (sym h); fits = tt }

OwnStep-IsInStep : (crypto : Crypto) (p q : Page) → OwnStep crypto p q → IsInStep p → IsInStep q
unfolding begin_connect balance_arrived disconnect
OwnStep-IsInStep crypto p _ begun w = record { same = w.same; fits = tt }
OwnStep-IsInStep crypto p _ (settled e sdk) w =
    settle-IsInStep p (connect crypto e sdk p.adapter).0 (connect crypto e sdk p.adapter).1 w
      (connect-Outcome crypto e sdk p.adapter)
OwnStep-IsInStep crypto p _ left w = record { same = refl; fits = tt }
OwnStep-IsInStep crypto p _ (arrived b) w = record { same = w.same; fits = w.fits }

-- A component that is mounted at any time, whatever happened to the adapter before, and then begins to
-- connect, connects, fails to, disconnects or shows a balance in whatever order, has the same address as
-- the adapter, where it is not empty; while it is connected it has an address, and while it is
-- disconnected it has none. No call of another component ends in between.
pub Alone-IsInStep : (crypto : Crypto) (p : Page) → Alone crypto p → IsInStep p
Alone-IsInStep crypto _ (alone_start {p} r) = take_up-IsInStep p.adapter _ refl
Alone-IsInStep crypto _ (alone_step r move) =
    OwnStep-IsInStep crypto _ _ move (Alone-IsInStep crypto _ r)

-- A component that is mounted while the adapter has no address, and behind whose mounting a connection
-- that another component began ends with an address that is not empty, keeps a state in which
-- signing is refused, though the adapter holds the address; another mounting shows it as
-- connected with that address.
pub connect_elsewhere-mount_page :
    (crypto : Crypto) (e : Option Extension) (sdk : SdkLoad) (p : Page) (c : ℕ) (address : Text)
    → p.adapter.address ≡ none
    → (connect crypto e sdk p.adapter).1 ≡ ok (c ∷ address)
    → ((connect_elsewhere crypto e sdk (mount_page p)).adapter.address ≡ some (c ∷ address))
      × (sign_guard (connect_elsewhere crypto e sdk (mount_page p)).state
          ≡ err (thrown (codes "Wallet not connected")))
      × (sign_guard (mount_page (connect_elsewhere crypto e sdk (mount_page p))).state
          ≡ ok (c ∷ address))
unfolding take_up sign_guard
connect_elsewhere-mount_page crypto e sdk p c address gone won =
    let held =
      held_address p.adapter.address (connect crypto e sdk p.adapter) won
        (connect-Outcome crypto e sdk p.adapter) in
    (held, rw gone refl, rw held refl)
  where
    held_address :
        (old : Option Text) (r : Adapter × Result Text)
        → r.1 ≡ ok (c ∷ address)
        → Outcome old r
        → r.0.address ≡ some (c ∷ address)
    held_address old (b, ok a) h outcome = outcome ∙ ap some (ok-injective h)
    held_address old (b, err e) h outcome = absurd (cc h)
