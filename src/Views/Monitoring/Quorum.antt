-- ===== src/Views/Monitoring/Quorum.antt =====
-- What the thresholds of src/components/views/MonitoringView.tsx mean for the nodes.
use resistance_network.Common.{ℕ, ◌+◌, ◌*◌, ◌≤◌, ◌<◌, ◌≡◌, ◌↔◌, true, List, [], ◌∷◌, length, arith}
use resistance_network.Api.Testnet.{TestnetNode}
use resistance_network.Views.Monitoring.{
  online_count, offline_count, total_nodes, fault_tolerance, liveness_threshold, consensus_healthy,
}

counted : (ns : List TestnetNode) → online_count ns + offline_count ns ≡ length ns
counted [] = omega arith
counted (n ∷ ns) = ground (arith, counted ns)

-- The threshold is reached by any nodes but as many as may be faulty, and two sets of that size share
-- more nodes than may be faulty.
liveness_threshold_lem :
    (n : ℕ)
    → 0 < n
    → (liveness_threshold n + fault_tolerance n ≡ n)
      × (n + fault_tolerance n < 2 * liveness_threshold n)
unfolding liveness_threshold fault_tolerance
liveness_threshold_lem n h = (omega arith, omega arith)

-- Of at least one node, the page calls the consensus healthy exactly when no more nodes are offline
-- than the network of so many nodes tolerates.
pub consensus_healthy_iff :
    (n : TestnetNode) (ns : List TestnetNode)
    → (consensus_healthy (n ∷ ns) ≡ true)
      ↔ (offline_count (n ∷ ns) ≤ fault_tolerance (total_nodes (n ∷ ns)))
unfolding consensus_healthy total_nodes
consensus_healthy_iff n ns =
    let total = liveness_threshold_lem (length (n ∷ ns)) (omega arith) in
    let both = counted (n ∷ ns) in
    ((λ h. ground (arith, total.0, both)), (λ h. ground (arith, total.0, both)))
