-- ===== src/Api.antt =====
-- src/lib/api.ts: the mode, the endpoint and the transport of the data layer.
pub mod Data
pub mod Mock
pub mod Reads
pub mod Testnet
pub mod Writes
pub mod Mode
pub mod Endpoint
pub mod Lookup
use resistance_network.Common.{
  ℕ, ◌+◌, Bool, true, false, not, List, [], ◌∷◌, ◌++◌, Text, codes, if◌then◌else◌, Option, none,
  some, Result, ok, err, Error,
}
use resistance_network.Json.{Json, boolean, Request, Reply, result, outcome}

-- `localStorage`: it throws, or it holds a value for the endpoint's key or none.
pub data Storage : Type 0 where
  unavailable : Storage
  available : Option Text → Storage

-- The variables of the module and what it reads of the browser. `window_override` is
-- `window.__RSTN_RPC__`; `notices` records the messages of `setRpcMode`, by the mode they tell of.
pub record State : Type 0 where
  pub rpc_mode : Bool
  pub rpc_id_counter : ℕ
  pub has_window : Bool
  pub window_override : Option Text
  pub storage : Storage
  pub notices : List Bool

-- How the module starts in a browser with the given storage.
unfoldable pub initial : Storage → State
initial storage = record {
  rpc_mode = true;
  rpc_id_counter = 0;
  has_window = true;
  window_override = none;
  storage = storage;
  notices = [];
}

abbrev pub same : Bool → Bool → Bool
same true b = b
same false b = not b

unfoldable pub set_rpc_mode : Bool → State → State
set_rpc_mode enabled s =
    if not (same enabled s.rpc_mode)
    then record s { rpc_mode = enabled; notices = s.notices ++ enabled ∷ [] }
    else s

abbrev pub default_rpc_endpoint : Text
default_rpc_endpoint = codes "http://localhost:9944"

-- A text that is there and is not empty, or the other one.
abbrev pub text_or : Option Text → Text → Text
text_or none d = d
text_or (some []) d = d
text_or (some (c ∷ t)) d = c ∷ t

abbrev pub stored : Storage → Option Text
stored unavailable = none
stored (available v) = v

unfoldable pub get_rpc_endpoint : State → Text
get_rpc_endpoint s =
    if s.has_window
    then text_or s.window_override (text_or (stored s.storage) default_rpc_endpoint)
    else default_rpc_endpoint

-- `json.result === true`
abbrev pub is_true : Reply Json → Bool
is_true (result (boolean true)) = true
is_true _ = false

unfoldable pub auto_detect_rpc : (Request → Reply Json) → State → State × Bool
auto_detect_rpc net s =
    let reply = net (record {
      endpoint = get_rpc_endpoint s;
      id = 0;
      method = codes "rstn_health";
      params = [];
    }) in
    if is_true reply then (set_rpc_mode true s, true) else (s, false)

abbrev pub store : Text → Storage → Storage
store url unavailable = unavailable
store url (available v) = available (some url)

unfoldable pub set_rpc_endpoint : (Request → Reply Json) → Text → State → State × Bool
set_rpc_endpoint net url s = auto_detect_rpc net (record s { storage = store url s.storage })

module _ {ℓ} {A : Type ℓ} (net : Request → Reply A) (method : Text) (params : List Json) where
  unfoldable pub rpc_call : State → State × Result A
  rpc_call s =
      let id = s.rpc_id_counter + 1 in
      (
        record s { rpc_id_counter = id },
        outcome (
            net (record {
              endpoint = get_rpc_endpoint s;
              id = id;
              method = method;
              params = params;
            })),
      )

  -- The result, or the fallback with the mode switched off.
  abbrev pub recover : A → State × Result A → State × A
  recover fallback (s, ok a) = (s, a)
  recover fallback (s, err e) = (set_rpc_mode false s, fallback)

  unfoldable pub rpc_call_with_fallback : A → State → State × A
  rpc_call_with_fallback fallback s = recover fallback (rpc_call s)

  -- The `try` of the operations that write: the mode is switched off, and the error goes on.
  abbrev pub rethrow : State × Result A → State × Result A
  rethrow (s, ok a) = (s, ok a)
  rethrow (s, err e) = (set_rpc_mode false s, err e)

  unfoldable pub rpc_call_or_throw : State → State × Result A
  rpc_call_or_throw s = rethrow (rpc_call s)

  abbrev pub connected : State × Result A → State × Bool
  connected (s, ok a) = (s, true)
  connected (s, err e) = (set_rpc_mode false s, false)

unfoldable pub check_rpc_connection {ℓ} : {A : Type ℓ} → (Request → Reply A) → State → State × Bool
check_rpc_connection net s =
    if not s.rpc_mode
    then (s, false)
    else connected net (codes "rstn_health") [] (rpc_call net (codes "rstn_health") [] s)
