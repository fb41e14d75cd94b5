-- ===== src/Runs/Network.antt =====
-- Runs of src/lib/rstn-client.ts and src/lib/api.ts.
use resistance_network.Common.{
  ℕ, ◌+◌, ◌*◌, ◌^◌, ◌≤◌, ◌≡◌, refl, true, false, ◌||◌, List, [], ◌∷◌, ◌++◌, ◌==◌, codes, length,
  none, ok, err, thrown, if◌then◌else◌,
}
use resistance_network.Json.{Json, boolean, Request, Reply, outcome, result, http_status, failed}
use resistance_network.Client.{
  Client, new_client, rpc_call, rpc_loop, after_attempt, note_success, health, health_tick,
  attempt_reconnect, set_status,
}
use resistance_network.Client.Retry.{
  outcomes, first_success, requests_made, settle, advance, rpc_call_lem,
}
use resistance_network.Client.Retry.Bounds.{total, rpc_call_bounds}
use resistance_network.Client.Monitor.{Ended, attempt_reconnect-Ended, health_tick-health}
use resistance_network.Client.Listeners.{IsDistinct}
use resistance_network.Api.{
  State, available, initial, set_rpc_mode, get_rpc_endpoint, set_rpc_endpoint, is_true,
}
use resistance_network.Api.Writes.{write}
use resistance_network.Api.Mode.{next_outcome, write_twice}
use resistance_network.Api.Endpoint.{set_rpc_endpoint-get_rpc_endpoint}

-- A node that answers from the third request on.
abbrev late : Request → Reply ℕ
late r = if r.id == 3 then result 42 else http_status 503

abbrev client : Client
client = new_client (codes "http://localhost:9944") 5000 3

late_run :
    ((rpc_call late (codes "rstn_health") [] client).1 ≡ ok 42)
    × ((rpc_call late (codes "rstn_health") [] client).0.rpc_id ≡ 3)
    × ((rpc_call late (codes "rstn_health") [] client).0.waits ≡ 1000 ∷ 2000 ∷ [])
unfolding new_client rpc_call rpc_loop after_attempt outcome note_success set_status
late_run = (refl, refl, refl)

rpc_call_lem_example : rpc_call late (codes "rstn_health") [] client ≡ (
  settle
      (first_success
        (outcomes late
          (codes "rstn_health")
          []
          (client.max_retries + 1)
          client.endpoint
          client.rpc_id)
        (thrown (codes "RPC call failed")))
      (advance 0
        (requests_made (
          outcomes late
            (codes "rstn_health")
            []
            (client.max_retries + 1)
            client.endpoint
            client.rpc_id))
        client),
  first_success
      (outcomes late
        (codes "rstn_health")
        []
        (client.max_retries + 1)
        client.endpoint
        client.rpc_id)
      (thrown (codes "RPC call failed")),
)
rpc_call_lem_example = rpc_call_lem late (codes "rstn_health") [] client

rpc_call_bounds_example :
    (n : ℕ) × (w : List ℕ) × ((rpc_call late (codes "rstn_health") [] client).0.rpc_id
      ≡ client.rpc_id + n)
    × (1 ≤ n)
    × (n ≤ client.max_retries + 1)
    × ((rpc_call late (codes "rstn_health") [] client).0.waits ≡ client.waits ++ w)
    × (length w + 1 ≡ n)
    × (total w + client.reconnect_delay ≤ client.reconnect_delay * 2 ^ client.max_retries)
rpc_call_bounds_example = rpc_call_bounds late (codes "rstn_health") [] client

health_tick-health_example : health_tick late client ≡ (health late client).0
health_tick-health_example = health_tick-health late client

attempt_reconnect-Ended_example : Ended late (attempt_reconnect late client)
attempt_reconnect-Ended_example = attempt_reconnect-Ended late client

abbrev heard_client : Client
heard_client = record client { listeners = 4 ∷ 7 ∷ [] }

heard_client-IsDistinct : IsDistinct heard_client.listeners
heard_client-IsDistinct = (refl, (refl, tt))

-- The module in its first state, and with the mode switched off.
abbrev online : State
online = initial (available none)

abbrev offline : State
offline = record {
  rpc_mode = false;
  rpc_id_counter = 5;
  has_window = true;
  window_override = none;
  storage = available none;
  notices = false ∷ [];
}

abbrev down : Request → Reply ℕ
down r = failed (codes "fetch failed")

initial_mode : online.rpc_mode ≡ true
unfolding initial
initial_mode = refl

down_run : next_outcome down (codes "rstn_stake") [] online ≡ err (thrown (codes "fetch failed"))
unfolding initial outcome resistance_network.Api.rpc_call
down_run = refl

write_twice_example :
    ((write down (codes "rstn_stake") [] 8 online).1 ≡ err (thrown (codes "fetch failed")))
    × (write down (codes "rstn_stake") [] 8 (write down (codes "rstn_stake") [] 8 online).0
        ≡ ((write down (codes "rstn_stake") [] 8 online).0, ok 8))
write_twice_example =
    write_twice down (codes "rstn_stake") [] 8 online (thrown (codes "fetch failed")) initial_mode
      down_run

abbrev healthy : Request → Reply Json
healthy r = result (boolean true)

set_rpc_endpoint-get_rpc_endpoint_example :
    (get_rpc_endpoint (set_rpc_endpoint healthy (codes "http://n") offline).0 ≡ codes "http://n")
    × ((set_rpc_endpoint healthy (codes "http://n") offline).1
        ≡ is_true (
            healthy (record {
              endpoint = codes "http://n";
              id = 0;
              method = codes "rstn_health";
              params = [];
            })))
    × ((set_rpc_endpoint healthy (codes "http://n") offline).0.rpc_mode
        ≡ (set_rpc_endpoint healthy (codes "http://n") offline).1 || offline.rpc_mode)
set_rpc_endpoint-get_rpc_endpoint_example =
    set_rpc_endpoint-get_rpc_endpoint healthy b'h' (codes "ttp://n") offline none refl refl refl
