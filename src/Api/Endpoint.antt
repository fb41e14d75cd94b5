-- ===== src/Api/Endpoint.antt =====
-- The endpoint, the detection of a node and the check of the connection.
use resistance_network.Common.{
  ℕ, ◌≡◌, refl, sym, ap, ◌∙◌, Bool, true, false, ◌||◌, [], ◌∷◌, Text, codes, if◌then◌else◌, Option,
  none, some, arith,
}
use resistance_network.Json.{Json, Request, Reply}
use resistance_network.Api.{
  available, State, set_rpc_mode, get_rpc_endpoint, is_true, auto_detect_rpc, set_rpc_endpoint,
}

set_rpc_mode_keeps :
    (b : Bool) (s : State)
    → ((set_rpc_mode b s).has_window ≡ s.has_window)
      × ((set_rpc_mode b s).window_override ≡ s.window_override)
      × ((set_rpc_mode b s).storage ≡ s.storage)
      × ((set_rpc_mode b s).rpc_mode ≡ b)
unfolding set_rpc_mode
set_rpc_mode_keeps b s = ground arith

get_rpc_endpoint-set_rpc_mode :
    (b : Bool) (s : State) → get_rpc_endpoint (set_rpc_mode b s) ≡ get_rpc_endpoint s
unfolding get_rpc_endpoint
get_rpc_endpoint-set_rpc_mode b s = let (w, o, t, _) = set_rpc_mode_keeps b s in rw (w, o, t) refl

-- What the detection does with the answer of the node.
detected_lem :
    (answer : Bool) (s : State) (out : State × Bool)
    → out ≡ (if answer then (set_rpc_mode true s, true) else (s, false))
    → (get_rpc_endpoint out.0 ≡ get_rpc_endpoint s)
      × (out.1 ≡ answer)
      × (out.0.rpc_mode ≡ answer || s.rpc_mode)
detected_lem true s out e =
    rw e (get_rpc_endpoint-set_rpc_mode true s, refl, (set_rpc_mode_keeps true s).3)
detected_lem false s out e = rw e (refl, refl, refl)

stored_endpoint :
    (c : ℕ) (url : Text) (s : State)
    → s.has_window ≡ true
    → s.window_override ≡ none
    → s.storage ≡ available (some (c ∷ url))
    → get_rpc_endpoint s ≡ c ∷ url
unfolding get_rpc_endpoint
stored_endpoint c url s w o t = rw (w, o, t) refl

-- In a window without an override and with storage at hand, `setRpcEndpoint` with a text that is not
-- empty makes it the endpoint. It tells whether the node there answers `rstn_health` with `true`,
-- asked with the number 0; if so it switches the mode on, and otherwise leaves the mode as it was.
pub set_rpc_endpoint-get_rpc_endpoint :
    (net : Request → Reply Json) (c : ℕ) (url : Text) (s : State) (v : Option Text)
    → s.has_window ≡ true
    → s.window_override ≡ none
    → s.storage ≡ available v
    → (get_rpc_endpoint (set_rpc_endpoint net (c ∷ url) s).0 ≡ c ∷ url)
      × ((set_rpc_endpoint net (c ∷ url) s).1
          ≡ is_true (
              net
                (record { endpoint = c ∷ url; id = 0; method = codes "rstn_health"; params = [] })))
      × ((set_rpc_endpoint net (c ∷ url) s).0.rpc_mode
          ≡ (set_rpc_endpoint net (c ∷ url) s).1 || s.rpc_mode)
unfolding set_rpc_endpoint auto_detect_rpc
set_rpc_endpoint-get_rpc_endpoint net c url s v w o t =
    let next : State = record s { storage = available (some (c ∷ url)) } in
    let at : get_rpc_endpoint next ≡ c ∷ url = stored_endpoint c url next w o refl in
    rw (t, at)
      (let (kept, same, mode) =
          detected_lem
            (is_true (
              net
                (record { endpoint = c ∷ url; id = 0; method = codes "rstn_health"; params = [] })))
            next _ refl in
        (kept ∙ at, same, mode ∙ ap (λ b. b || s.rpc_mode) (sym same)))
