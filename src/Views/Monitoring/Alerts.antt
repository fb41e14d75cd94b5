-- ===== src/Views/Monitoring/Alerts.antt =====
-- Which alerts src/components/views/MonitoringView.tsx shows, whatever the nodes answered.
use resistance_network.Common.{
  ℕ, ◌≡◌, refl, ap₂, ◌∙◌, ◌⊎◌, inl, inr, Bool, true, false, not, ◌&&◌, List, [], ◌∷◌, ◌++◌, map,
  append-nil, Text, text_eq, keep, ltb, if◌then◌else◌, Option, none, some, arith, All, Bool-cases,
}
use resistance_network.Api.Testnet.{TestnetNode}
use resistance_network.Views.Monitoring.{
  Heights, height_of, given_or, carry_heights, fetch_nodes, set_auto_refresh, mounted, Monitor,
  Alert, down_alert, stalled_alert, node_alerts, alerts_of, alerts, consensus_healthy, online_count,
  total_nodes, polled, switched, Reachable, start, step,
}

-- No height was ever kept: the entries stay what they are for a node that has none.
abbrev IsNothing : Heights → Type 0
IsNothing hs = All (λ e. e.1 ≡ 0) hs

height_of-IsNothing :
    (id : Text) (hs : Heights)
    → IsNothing hs
    → (height_of id hs ≡ none) ⊎ (height_of id hs ≡ some 0)
height_of-IsNothing id [] h = inl refl
height_of-IsNothing id ((k, v) ∷ r) (z, h) = elim (Bool-cases (text_eq k id)) [
  | inl same ↦ inr (rw (same, z) refl)
  | inr other ↦ rw other (height_of-IsNothing id r h)
]

given_or-IsNothing : (id : Text) (hs : Heights) → IsNothing hs → given_or (height_of id hs) 0 ≡ 0
given_or-IsNothing id hs h = elim (height_of-IsNothing id hs h) [
  | inl e ↦ rw e refl
  | inr e ↦ rw e refl
]

carry_heights-IsNothing :
    (prev : Heights) (ns : List TestnetNode) (next : Heights)
    → IsNothing prev
    → IsNothing next
    → IsNothing (carry_heights prev ns next)
unfolding carry_heights
carry_heights-IsNothing prev [] next h k = k
carry_heights-IsNothing prev (n ∷ ns) next h k =
    carry_heights-IsNothing prev ns _ h (given_or-IsNothing n.id prev h, k)

Reachable-IsNothing : (m : Monitor) → Reachable m → IsNothing m.prev_heights
unfolding mounted fetch_nodes set_auto_refresh
Reachable-IsNothing _ start = tt
Reachable-IsNothing _ (step {m} r (polled net now)) =
    carry_heights-IsNothing m.prev_heights _ [] (Reachable-IsNothing m r) tt
Reachable-IsNothing _ (step {m} r (switched on)) = Reachable-IsNothing m r

not_below :
    (h : ℕ) (b : Bool) (o : Option ℕ)
    → (o ≡ none) ⊎ (o ≡ some 0)
    → b && ltb h (given_or o h) ≡ false
not_below h b o (inl e) = rw e (ground arith)
not_below h b o (inr e) = rw e (ground arith)

node_alerts-IsNothing :
    (hs : Heights) (n : TestnetNode)
    → IsNothing hs
    → node_alerts hs n ≡ (if not n.online then down_alert n ∷ [] else [])
unfolding node_alerts
node_alerts-IsNothing hs n h =
    rw (not_below n.block_height n.online (height_of n.id hs) (height_of-IsNothing n.id hs h))
      (append-nil _)

joined :
    (b : Bool) (n : TestnetNode) (kept : List TestnetNode)
    → (if b then down_alert n ∷ [] else []) ++ map down_alert kept
      ≡ map down_alert (if b then n ∷ kept else kept)
joined true n kept = refl
joined false n kept = refl

alerts_of-IsNothing :
    (hs : Heights) (ns : List TestnetNode)
    → IsNothing hs
    → alerts_of hs ns ≡ map down_alert (keep (λ n. not n.online) ns)
unfolding alerts_of
alerts_of-IsNothing hs [] h = refl
alerts_of-IsNothing hs (n ∷ ns) h =
    ap₂ (λ (x y : List Alert). x ++ y) (node_alerts-IsNothing hs n h) (alerts_of-IsNothing hs ns h)
    ∙ joined (not n.online) n (keep (λ m. not m.online) ns)

-- Whatever the nodes answered, the page shows the alert of a stalled consensus, if the threshold is
-- missed, and behind it one alert for each node that is offline, in their order, and nothing else: the
-- alert of a height that went down is never shown.
pub Reachable-alerts :
    (m : Monitor)
    → Reachable m
    → alerts m
      ≡ (if not (consensus_healthy m.nodes) && ltb 0 (total_nodes m.nodes)
          then stalled_alert (online_count m.nodes) (total_nodes m.nodes) ∷ []
          else [])
        ++ map down_alert (keep (λ n. not n.online) m.nodes)
unfolding alerts
Reachable-alerts m r =
    rw (alerts_of-IsNothing m.prev_heights m.nodes (Reachable-IsNothing m r)) refl
