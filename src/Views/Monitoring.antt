-- ===== src/Views/Monitoring.antt =====
-- src/components/views/MonitoringView.tsx: the nodes of the test network, the thresholds of their
-- consensus and the alerts. A poll is one step, when its answers are there.
pub mod Quorum
pub mod Alerts
use resistance_network.Common.{
  ℕ, ◌+◌, ◌-◌, ◌*◌, ◌/◌, Bool, true, false, not, ◌&&◌, List, [], ◌∷◌, ◌++◌, Text, codes, text_eq,
  length, keep, ltb, leb, if◌then◌else◌, Option, none, some,
}
use resistance_network.Common.Int.{pos}
use resistance_network.TxHelpers.BigInt.{print_bigint}
use resistance_network.Json.{Request, Reply}
use resistance_network.Api.Testnet.{TestnetNode, HeadBlock, get_testnet_nodes}

pub data Severity : Type 0 where
  critical : Severity
  warning : Severity
  information : Severity

pub record Alert : Type 0 where
  pub id : Text
  pub severity : Severity
  pub node : Text
  pub message : Text
  pub timestamp : Text

-- A `Record<string, number>`: the entries by their keys, a later one for the same key first.
abbrev pub Heights : Type 0
Heights = List (Text × ℕ)

abbrev pub height_of : Text → Heights → Option ℕ
height_of id [] = none
height_of id ((k, h) ∷ r) = if text_eq k id then some h else height_of id r

-- `o ?? d`
abbrev pub given_or : Option ℕ → ℕ → ℕ
given_or none d = d
given_or (some h) d = h

-- The state of the component; `loading` and the time of the last poll with it.
pub record Monitor : Type 0 where
  pub nodes : List TestnetNode
  pub loading : Bool
  pub auto_refresh : Bool
  pub last_update : Option ℕ
  pub prev_heights : Heights

unfoldable pub mounted : Monitor
mounted = record {
  nodes = [];
  loading = true;
  auto_refresh = true;
  last_update = none;
  prev_heights = [];
}

-- The updater of `setPrevHeights`, from the entries that are there already.
unfoldable pub carry_heights : Heights → List TestnetNode → Heights → Heights
carry_heights prev [] next = next
carry_heights prev (n ∷ ns) next =
    carry_heights prev ns ((n.id, given_or (height_of n.id prev) 0) ∷ next)

unfoldable pub fetch_nodes : (Request → Reply (List HeadBlock)) → ℕ → Monitor → Monitor
fetch_nodes net now m =
    let polled = get_testnet_nodes net in
    record m {
      prev_heights = carry_heights m.prev_heights polled [];
      nodes = polled;
      last_update = some now;
      loading = false;
    }

unfoldable pub set_auto_refresh : Bool → Monitor → Monitor
set_auto_refresh on m = record m { auto_refresh = on }

pub data Step : Monitor → Monitor → Type 0 where
  polled :
      {m : Monitor} (net : Request → Reply (List HeadBlock)) (now : ℕ)
      → Step m (fetch_nodes net now m)
  switched : {m : Monitor} (on : Bool) → Step m (set_auto_refresh on m)

pub data Reachable : Monitor → Type 0 where
  start : Reachable mounted
  step : {m m' : Monitor} → Reachable m → Step m m' → Reachable m'

abbrev pub online_count : List TestnetNode → ℕ
online_count ns = length (keep (λ n. n.online) ns)

abbrev pub offline_count : List TestnetNode → ℕ
offline_count ns = length (keep (λ n. not n.online) ns)

abbrev pub larger : ℕ → ℕ → ℕ
larger a b = if ltb a b then b else a

unfoldable pub max_block_height : List TestnetNode → ℕ
max_block_height [] = 0
max_block_height (n ∷ ns) = larger n.block_height (max_block_height ns)

-- `nodes.length || 4`
unfoldable pub total_nodes : List TestnetNode → ℕ
total_nodes [] = 4
total_nodes (n ∷ ns) = length (n ∷ ns)

-- `Math.max(0, Math.floor((n - 1) / 3))`: of no node, the floor of -1/3 is below 0.
unfoldable pub fault_tolerance : ℕ → ℕ
fault_tolerance n = (n - 1) / 3

-- `Math.ceil((2 * n + 1) / 3)`
unfoldable pub liveness_threshold : ℕ → ℕ
liveness_threshold n = (2 * n + 1 + 2) / 3

unfoldable pub consensus_healthy : List TestnetNode → Bool
consensus_healthy ns = leb (liveness_threshold (total_nodes ns)) (online_count ns)

unfoldable pub down_alert : TestnetNode → Alert
down_alert n = record {
  id = codes "down-" ++ n.id;
  severity = critical;
  node =
      codes "Node "
      ++ print_bigint (pos n.index)
      ++ codes " (:"
      ++ print_bigint (pos n.port)
      ++ codes ")";
  message = codes "Node is DOWN — RPC unreachable on port " ++ print_bigint (pos n.port);
  timestamp = codes "now";
}

unfoldable pub stall_alert : TestnetNode → ℕ → Alert
stall_alert n prev = record {
  id = codes "stall-" ++ n.id;
  severity = warning;
  node = codes "Node " ++ print_bigint (pos n.index);
  message =
      codes "Block height regressed ("
      ++ print_bigint (pos prev)
      ++ codes " → "
      ++ print_bigint (pos n.block_height)
      ++ codes ")";
  timestamp = codes "now";
}

unfoldable pub stalled_alert : ℕ → ℕ → Alert
stalled_alert online total = record {
  id = codes "consensus-stalled";
  severity = critical;
  node = codes "Consensus";
  message =
      codes "Liveness threshold not met — "
      ++ print_bigint (pos online)
      ++ codes "/"
      ++ print_bigint (pos total)
      ++ codes " online, need "
      ++ print_bigint (pos (liveness_threshold total))
      ++ codes " (2f+1)";
  timestamp = codes "now";
}

-- The alerts of one node.
unfoldable pub node_alerts : Heights → TestnetNode → List Alert
node_alerts prev_heights n =
    let prev = given_or (height_of n.id prev_heights) n.block_height in
    (if not n.online then down_alert n ∷ [] else [])
    ++ (if n.online && ltb n.block_height prev then stall_alert n prev ∷ [] else [])

unfoldable pub alerts_of : Heights → List TestnetNode → List Alert
alerts_of prev_heights [] = []
alerts_of prev_heights (n ∷ ns) = node_alerts prev_heights n ++ alerts_of prev_heights ns

unfoldable pub alerts : Monitor → List Alert
alerts m =
    (if not (consensus_healthy m.nodes) && ltb 0 (total_nodes m.nodes)
      then stalled_alert (online_count m.nodes) (total_nodes m.nodes) ∷ []
      else [])
    ++ alerts_of m.prev_heights m.nodes
