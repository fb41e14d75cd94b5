-- ===== src/Client.antt =====
-- src/lib/rstn-client.ts: the state of `RstnClient`, its retries and its connection status. The
-- transport is a function from a request to the node's reply; time passes only in the awaited delays,
-- which are recorded. The calls run one after the other.
pub mod Retry
pub mod Monitor
pub mod Listeners
pub mod Methods
use resistance_network.Common.{
  ℕ, zero, suc, ◌+◌, ◌-◌, ◌*◌, ◌^◌, Bool, true, false, not, ◌&&◌, List, [], ◌∷◌, ◌++◌, map, Text,
  codes, ltb, ◌==◌, Option, none, some, if◌then◌else◌, keep, Result, ok, err, Error, thrown,
}
use resistance_network.Json.{Json, Request, Reply, outcome}

pub data Status : Type 0 where
  connected disconnected reconnecting error : Status

abbrev pub is_connected : Status → Bool
is_connected Status.connected = true
is_connected Status.disconnected = false
is_connected Status.reconnecting = false
is_connected Status.error = false

-- `listeners` holds the callbacks by number, in the order of the Set. The last two fields record what
-- the client does to the outside: the calls of callbacks and the awaited delays in ms.
pub record Client : Type 0 where
  pub endpoint : Text
  pub rpc_id : ℕ
  pub timeout : ℕ
  pub max_retries : ℕ
  pub status : Status
  pub listeners : List ℕ
  pub health_interval : Option ℕ
  pub reconnect_attempts : ℕ
  pub max_reconnect_attempts : ℕ
  pub reconnect_delay : ℕ
  pub calls : List (ℕ × Status)
  pub waits : List ℕ

unfoldable pub new_client : Text → ℕ → ℕ → Client
new_client endpoint timeout max_retries = record {
  endpoint = endpoint;
  rpc_id = 0;
  timeout = timeout;
  max_retries = max_retries;
  status = Status.disconnected;
  listeners = [];
  health_interval = none;
  reconnect_attempts = 0;
  max_reconnect_attempts = 5;
  reconnect_delay = 1000;
  calls = [];
  waits = [];
}

abbrev pub contains : ℕ → List ℕ → Bool
contains a [] = false
contains a (x ∷ xs) = if x == a then true else contains a xs

-- `Set.prototype.add`
abbrev pub add : ℕ → List ℕ → List ℕ
add a xs = if contains a xs then xs else xs ++ a ∷ []

abbrev pub remove : ℕ → List ℕ → List ℕ
remove a xs = keep (λ x. not (x == a)) xs

unfoldable pub on_status_change : ℕ → Client → Client
on_status_change cb c = record c {
  listeners = add cb c.listeners;
  calls = c.calls ++ (cb, c.status) ∷ [];
}

-- The function that `onStatusChange` returns.
unfoldable pub unsubscribe : ℕ → Client → Client
unsubscribe cb c = record c { listeners = remove cb c.listeners }

unfoldable pub set_status : Status → Client → Client
set_status s c = record c { status = s; calls = c.calls ++ map (λ cb. (cb, s)) c.listeners }

abbrev pub wait : ℕ → Client → Client
wait ms c = record c { waits = c.waits ++ ms ∷ [] }

-- A timer is already there, or the given interval is set up.
unfoldable pub start_health_monitor : ℕ → Client → Client
start_health_monitor ms c = elim c.health_interval [
  | none ↦ record c { health_interval = some ms }
  | some _ ↦ c
]

unfoldable pub stop_health_monitor : Client → Client
stop_health_monitor c = record c { health_interval = none }

unfoldable pub set_endpoint : Text → Client → Client
unfolding set_status
set_endpoint endpoint c = set_status Status.disconnected (record c { endpoint = endpoint })

-- What a reply with a result does to the status.
unfoldable pub note_success : Client → Client
note_success c =
    if not (is_connected c.status)
    then set_status Status.connected (record c { reconnect_attempts = 0 })
    else c

module _ {ℓ} {A : Type ℓ} (net : Request → Reply A) (method : Text) (params : List Json) where
  -- `++this.rpcId` and the request that carries it.
  abbrev pub send : Client → Client × Reply A
  send c =
      let c' : Client = record c { rpc_id = c.rpc_id + 1 } in
      (
        c',
        net (record { endpoint = c.endpoint; id = c.rpc_id + 1; method = method; params = params }),
      )

  -- The rest of an attempt: its outcome ends the loop, or the loop goes on, after a delay if this was
  -- not the last attempt.
  unfoldable pub after_attempt :
      Result A → (Error → Client → Client × Result A) → ℕ → Client → Client × Result A
  after_attempt (ok v) again attempt c = (note_success c, ok v)
  after_attempt (err e) again attempt c =
      again e (if ltb attempt c.max_retries then wait (c.reconnect_delay * 2 ^ attempt) c else c)

  -- The loop from one attempt on, over the rounds left.
  unfoldable pub rpc_loop : ℕ → ℕ → Error → Client → Client × Result A
  unfolding after_attempt
  rpc_loop zero attempt last c = (set_status Status.error c, err last)
  rpc_loop (suc rounds) attempt last c =
      after_attempt (outcome (send c).1) (rpc_loop rounds (attempt + 1)) attempt (send c).0

  unfoldable pub rpc_call : Client → Client × Result A
  rpc_call c = rpc_loop (c.max_retries + 1) 0 (thrown (codes "RPC call failed")) c

abbrev pub succeeded {ℓ} : {A : Type ℓ} → Result A → Bool
succeeded (ok a) = true
succeeded (err e) = false

module _ {ℓ} {A : Type ℓ} (net : Request → Reply A) where
  unfoldable pub health : Client → Client × Bool
  health c = let (c', r) = rpc_call net (codes "rstn_health") [] c in (c', succeeded r)

  -- The loop of `attemptReconnect`. It adds one to the attempts in each round, so a fuel above the
  -- attempts left is enough.
  unfoldable pub reconnect_loop : ℕ → Client → Client
  reconnect_loop zero c = c
  reconnect_loop (suc fuel) c =
      let n = c.reconnect_attempts + 1 in
      let tried =
        health (wait (c.reconnect_delay * 2 ^ (n - 1)) (record c { reconnect_attempts = n })) in
      let again = reconnect_loop fuel tried.0 in
      if ltb c.reconnect_attempts c.max_reconnect_attempts
      then (if tried.1
          then set_status Status.connected (record tried.0 { reconnect_attempts = 0 })
          else again)
      else set_status Status.error c

  unfoldable pub attempt_reconnect : Client → Client
  attempt_reconnect c = reconnect_loop (c.max_reconnect_attempts + 1) c

  -- One round of the timer that `startHealthMonitor` sets up, with the reconnection that it starts
  -- run to its end.
  unfoldable pub health_tick : Client → Client
  health_tick c =
      let (c', healthy) = health c in
      if not healthy && is_connected c'.status
      then attempt_reconnect (set_status Status.reconnecting c')
      else if healthy && not (is_connected c'.status)
      then set_status Status.connected (record c' { reconnect_attempts = 0 })
      else c'
