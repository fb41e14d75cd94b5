-- ===== src/Bridge/Fallback.antt =====
-- What a submission to the bridge comes to.
use resistance_network.Common.{
  ◌≡◌, ap, ◌∙◌, sym, Bool, true, false, Text, codes, Result, err, thrown, [], Bool-cases, inl, inr,
  List,
}
use resistance_network.Json.{Json, Request, Reply}
use resistance_network.Api.{State}
use resistance_network.Api.Reads.{read}
use resistance_network.Api.Mode.{next_outcome, value_or, read_online, read_off}
use resistance_network.Bridge.{
  BridgeOpResult, mock_op, lock_params, burn_params, bridge_submit_lock, bridge_submit_burn,
}

-- The outcome where a node is asked, and a failure where none is.
abbrev pub answered : Bool → Result BridgeOpResult → Result BridgeOpResult
answered true r = r
answered false r = err (thrown [])

module _ (net : Request → Reply BridgeOpResult) where
  -- A submission as a read with one value for both its paths.
  read_either :
      (method : Text) (params : List Json) (mock : BridgeOpResult) (s : State)
      → (read net method params mock mock s).1
        ≡ value_or mock (answered s.rpc_mode (next_outcome net method params s))
  read_either method params mock s = elim (Bool-cases s.rpc_mode) [
    | inl on ↦
        (read_online net method params mock mock s on).0
        ∙ ap (λ b. value_or mock (answered b (next_outcome net method params s))) (sym on)
    | inr off ↦
        ap (λ o. o.1) (read_off net method params mock mock s off)
        ∙ ap (λ b. value_or mock (answered b (next_outcome net method params s))) (sym off)
  ]

  -- A lock or a burn never fails: it returns what the node returned, or, if no node was asked or the
  -- call failed, a record of the chain and the amount with the status "mock", in which the wrapped
  -- token is wBTC whatever the chain.
  bridge_submit_lem :
      (chain txid amount_text user : Text) (amount : Json) (s : State)
      → ((bridge_submit_lock net chain txid amount amount_text user s).1
          ≡ value_or (mock_op (codes "LockMint") chain amount_text) (
              answered s.rpc_mode (
                next_outcome net
                  (codes "rstn_bridgeSubmitLock")
                  (lock_params chain txid amount user)
                  s)))
        × ((bridge_submit_burn net chain amount amount_text user s).1
            ≡ value_or (mock_op (codes "BurnRelease") chain amount_text) (
                answered s.rpc_mode (
                  next_outcome net
                    (codes "rstn_bridgeSubmitBurn")
                    (burn_params chain amount user)
                    s)))
  unfolding bridge_submit_lock bridge_submit_burn
  bridge_submit_lem chain txid amount_text user amount s =
      (read_either _ _ _ s, read_either _ _ _ s)
