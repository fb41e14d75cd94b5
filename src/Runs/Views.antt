-- ===== src/Runs/Views.antt =====
-- Runs of src/components/views.
use resistance_network.Common.{
  ◌≤◌, ◌≡◌, ◌↔◌, refl, trim_start, true, false, not, ◌&&◌, List, [], ◌∷◌, ◌++◌, map, Text, codes,
  length, keep, replicate, ltb, if◌then◌else◌, none, some, ok, arith,
}
use resistance_network.TxHelpers.BigInt.{print_bigint, print_loop}
use resistance_network.Json.{Request, Reply, failed, result}
use resistance_network.Validation.{parse_prefix}
use resistance_network.Api.Testnet.{HeadBlock, offline_node, online_node}
use resistance_network.Api.Writes.{faucet_amount}
use resistance_network.Views.Number.{Float, parse_float, parse_unsigned, span_digits}
use resistance_network.Views.Monitoring
use resistance_network.Views.Monitoring.{
  Monitor, Alert, alerts, consensus_healthy, total_nodes, online_count, offline_count,
  fault_tolerance, stalled_alert, down_alert, fetch_nodes,
}
use resistance_network.Views.Monitoring.Alerts.{Reachable-alerts}
use resistance_network.Views.Monitoring.Quorum.{consensus_healthy_iff}
use resistance_network.Views.Faucet
use resistance_network.Views.Faucet.{
  Faucet, WalletView, begin_claim, begin_for, can_claim, cooldown_remaining, end_claim,
}
use resistance_network.Views.Faucet.Waits.{IsSpaced, Follows, Reachable-IsSpaced}
use resistance_network.Views.Simulator
use resistance_network.Views.Simulator.{Simulator, Timer, start, settle}
use resistance_network.Views.Simulator.Liveness.{Reachable-settle}
use resistance_network.Views.BridgePanel
use resistance_network.Views.BridgePanel.{Panel, refusal}
use resistance_network.Views.BridgePanel.Accepted.{IsReady, refusal_iff}

-- A poll that only the first node answers.
abbrev one_node : Request → Reply (List HeadBlock)
one_node r =
    if ltb r.id 9945
    then result (record { height = some 7; validator = none } ∷ [])
    else failed (codes "down")

abbrev monitored : Monitor
monitored = fetch_nodes one_node 60 Monitoring.mounted

monitored-Reachable : Monitoring.Reachable monitored
monitored-Reachable = Monitoring.step Monitoring.start (Monitoring.polled one_node 60)

Reachable-alerts_example :
    alerts monitored
    ≡ (if not (consensus_healthy monitored.nodes) && ltb 0 (total_nodes monitored.nodes)
        then stalled_alert (online_count monitored.nodes) (total_nodes monitored.nodes) ∷ []
        else [])
      ++ map down_alert (keep (λ n. not n.online) monitored.nodes)
Reachable-alerts_example = Reachable-alerts monitored monitored-Reachable

abbrev some_head : HeadBlock
some_head = record { height = some 7; validator = none }

consensus_healthy_iff_example :
    (consensus_healthy (online_node 0 9944 some_head ∷ offline_node 1 9946 ∷ []) ≡ true) ↔ (
      offline_count (online_node 0 9944 some_head ∷ offline_node 1 9946 ∷ [])
      ≤ fault_tolerance (total_nodes (online_node 0 9944 some_head ∷ offline_node 1 9946 ∷ [])))
consensus_healthy_iff_example =
    consensus_healthy_iff (online_node 0 9944 some_head) (offline_node 1 9946 ∷ [])

abbrev some_wallet : WalletView
some_wallet = record { connected = true; address = some (codes "rstn1ab") }

abbrev clicked_page : Faucet
clicked_page = begin_claim 5 some_wallet (Faucet.mounted none)

clicked_page_run : clicked_page.claiming ≡ true
unfolding begin_claim begin_for can_claim cooldown_remaining Faucet.mounted
clicked_page_run = refl

abbrev claimed_page : Faucet
claimed_page =
    end_claim 9 (codes "1000") (ok (record { hash = codes "0x1"; amount = faucet_amount }))
      clicked_page

claimed_page-Reachable : Faucet.Reachable 9 claimed_page
claimed_page-Reachable =
    Faucet.settled 9 (codes "1000") (ok (record { hash = codes "0x1"; amount = faucet_amount }))
      clicked_page_run
      (Faucet.waited 5 9 (omega arith)
        (Faucet.clicked 5 5 some_wallet (omega arith) (Faucet.opened 5 (omega arith))))

Reachable-IsSpaced_example :
    (length claimed_page.history ≤ 10)
    × IsSpaced claimed_page.history
    × (claimed_page.claiming ≡ true → Follows 9 claimed_page.history)
Reachable-IsSpaced_example = Reachable-IsSpaced 9 claimed_page claimed_page-Reachable

abbrev no_print : Float → Text
no_print x = codes "1"

abbrev no_clock : Timer → Text
no_clock t = codes "12:00"

abbrev started_page : Simulator
started_page = start no_print (codes "12:00") Simulator.idle

started_page-Reachable : Simulator.Reachable started_page
started_page-Reachable = Simulator.step Simulator.begin (Simulator.started no_print (codes "12:00"))

Reachable-settle_example :
    (started_page.is_running ≡ true
      → ((settle no_clock started_page.timers started_page).is_running ≡ false)
        × ((settle no_clock started_page.timers started_page).active_step ≡ some 5)
        × ((settle no_clock started_page.timers started_page).timers ≡ []))
    × (started_page.is_running ≡ false → started_page.timers ≡ [])
Reachable-settle_example = Reachable-settle no_clock started_page started_page-Reachable

-- The simulation does run: it logs fifteen entries.
started_page_run :
    (started_page.is_running ≡ true)
    × (length (settle no_clock started_page.timers started_page).log ≡ 15)
unfolding start Simulator.launch Simulator.reset Simulator.idle Simulator.schedule settle
    Simulator.fire Simulator.begin_step Simulator.complete_step parse_float parse_unsigned
    span_digits print_bigint print_loop trim_start parse_prefix
started_page_run = (refl, refl)

abbrev ready_panel : Panel
ready_panel = record BridgePanel.mounted { user_address = codes "rstn1" ++ replicate 40 b'a' }

refusal_iff_example : (refusal ready_panel ≡ none) ↔ IsReady ready_panel
refusal_iff_example = refusal_iff ready_panel
