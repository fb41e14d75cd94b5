-- ===== src/Client/Retry.antt =====
-- What `rpcCall` does, against a description by the sequence of the node's replies.
pub mod Bounds
use resistance_network.Common.{
  ℕ, zero, suc, ◌+◌, ◌-◌, ◌*◌, ◌^◌, ◌≤◌, ◌<◌, ◌≡◌, refl, sym, ap, ◌∙◌, true, false, List, [], ◌∷◌,
  ◌++◌, append_assoc, append-nil, length, Text, codes, ltb, Result, ok, err, Error, thrown, arith,
  ap₂, subst,
}
use native.Mathlib.Numerals.{towards_suc}
use resistance_network.Json.{Json, Request, Reply, outcome}
use resistance_network.Client.{
  Status, Client, set_status, wait, note_success, send, after_attempt, rpc_loop, rpc_call,
}

-- The first result among the outcomes, or the last error, and how many were looked at.
pub first_success {ℓ} : {A : Type ℓ} → List (Result A) → Error → Result A
first_success [] last = err last
first_success (ok v ∷ rs) last = ok v
first_success (err e ∷ rs) last = first_success rs e

pub requests_made {ℓ} : {A : Type ℓ} → List (Result A) → ℕ
requests_made [] = 0
requests_made (ok v ∷ rs) = 1
requests_made (err e ∷ rs) = requests_made rs + 1

-- The delays behind `n` failed attempts, from attempt `a` on.
pub backoff : ℕ → ℕ → ℕ → List ℕ
backoff delay a zero = []
backoff delay a (suc n) = (delay * 2 ^ a) ∷ backoff delay (a + 1) n

-- How the client is left.
abbrev pub settle {ℓ} : {A : Type ℓ} → Result A → Client → Client
settle (ok v) c = note_success c
settle (err e) c = set_status Status.error c

-- The client after `n` requests and the delays between them.
abbrev pub advance : ℕ → ℕ → Client → Client
advance a n c = record c {
  rpc_id = c.rpc_id + n;
  waits = c.waits ++ backoff c.reconnect_delay a (n - 1);
}

requests_made_pos {ℓ} :
    {A : Type ℓ} (r : Result A) (rs : List (Result A)) → 0 < requests_made (r ∷ rs)
unfolding requests_made
requests_made_pos (ok v) rs = omega arith
requests_made_pos (err e) rs = omega arith

-- The first request, with no delay behind it.
advance_zero : (a : ℕ) (c : Client) → c ≡ advance a 0 c
unfolding backoff
advance_zero a c =
    ap₂ (λ (i : ℕ) (w : List ℕ). record c { rpc_id = i; waits = w }) (omega arith)
      (sym (append-nil c.waits))

advance_one : (a : ℕ) (c : Client) → record c { rpc_id = c.rpc_id + 1 } ≡ advance a 1 c
unfolding backoff
advance_one a c =
    ap (λ (w : List ℕ). record c { rpc_id = c.rpc_id + 1; waits = w }) (sym (append-nil c.waits))

backoff_step :
    (delay a n : ℕ)
    → 0 < n
    → (delay * 2 ^ a) ∷ backoff delay (a + 1) (n - 1) ≡ backoff delay a (n + 1 - 1)
unfolding backoff
backoff_step delay a zero h = absurd (omega arith)
backoff_step delay a (suc n) h =
    ap (λ (j : ℕ). (delay * 2 ^ a) ∷ backoff delay (a + 1) j) {x = suc n - 1} {y = n} (omega arith)
    ∙ ap (backoff delay a) {x = suc n} {y = suc n + 1 - 1} (omega arith)

advance_step :
    (a n : ℕ) (c : Client)
    → 0 < n
    → advance (a + 1) n (wait (c.reconnect_delay * 2 ^ a) (record c { rpc_id = c.rpc_id + 1 }))
      ≡ advance a (n + 1) c
advance_step a n c h =
    ap₂ (λ (i : ℕ) (w : List ℕ). record c { rpc_id = i; waits = w }) (omega arith)
      (append_assoc c.waits ((c.reconnect_delay * 2 ^ a) ∷ []) _
        ∙ ap (λ (w : List ℕ). c.waits ++ w) (backoff_step c.reconnect_delay a n h))

module _ {ℓ} {A : Type ℓ} (net : Request → Reply A) (method : Text) (params : List Json) where
  -- The outcomes of the next `n` requests.
  pub outcomes : ℕ → Text → ℕ → List (Result A)
  outcomes zero endpoint id = []
  outcomes (suc n) endpoint id =
      outcome (net (record { endpoint = endpoint; id = id + 1; method = method; params = params }))
      ∷ outcomes n endpoint (id + 1)

  -- What the loop returns, over the rounds left and the attempt.
  abbrev Settled : ℕ → ℕ → Error → Client → Client × Result A → Type ℓ
  Settled rounds a last c out = out ≡ (
    settle (first_success (outcomes rounds c.endpoint c.rpc_id) last)
        (advance a (requests_made (outcomes rounds c.endpoint c.rpc_id)) c),
    first_success (outcomes rounds c.endpoint c.rpc_id) last,
  )

  rpc_loop_round :
      (rounds a : ℕ) (last : Error) (c : Client) (o : Result A)
      → a + suc rounds ≡ c.max_retries + 1
      → ((next : Error) (d : Client)
          → a + 1 + rounds ≡ d.max_retries + 1
          → Settled rounds (a + 1) next d (rpc_loop net method params rounds (a + 1) next d))
      → after_attempt net method params o
          (rpc_loop net method params rounds (a + 1))
          a
          (send net method params c).0
        ≡ (
          settle
              (first_success (o ∷ outcomes rounds c.endpoint (c.rpc_id + 1)) last)
              (advance a (requests_made (o ∷ outcomes rounds c.endpoint (c.rpc_id + 1))) c),
          first_success (o ∷ outcomes rounds c.endpoint (c.rpc_id + 1)) last,
        )
  unfolding after_attempt first_success requests_made
  rpc_loop_round rounds a last c (ok v) h ih =
      ap (λ (d : Client). (note_success d, ok v)) (advance_one a c)
  rpc_loop_round zero a last c (err x) h ih =
      let last_attempt : ltb a c.max_retries ≡ false = ground arith in
      rw last_attempt (
        unfold rpc_loop outcomes in
        ap (λ (d : Client). (set_status Status.error d, err x)) (advance_one a c))
  rpc_loop_round (suc rounds) a last c (err x) h ih =
      let more : ltb a c.max_retries ≡ true = ground arith in
      let rs = outcomes (suc rounds) c.endpoint (c.rpc_id + 1) in
      rw more (
        ih x (wait (c.reconnect_delay * 2 ^ a) (record c { rpc_id = c.rpc_id + 1 })) (omega arith)
        ∙ ap (λ (d : Client). (settle (first_success rs x) d, first_success rs x))
            (advance_step a (requests_made rs) c (unfold outcomes in requests_made_pos _ _)))

  rpc_loop_lem :
      (rounds a : ℕ) (last : Error) (c : Client)
      → a + rounds ≡ c.max_retries + 1
      → Settled rounds a last c (rpc_loop net method params rounds a last c)
  unfolding rpc_loop outcomes first_success requests_made
  rpc_loop_lem zero a last c h =
      ap (λ (d : Client). (set_status Status.error d, err last)) (advance_zero a c)
  rpc_loop_lem (suc rounds) a last c h =
      rpc_loop_round rounds a last c (outcome (send net method params c).1) h
        (λ next d k. rpc_loop_lem rounds (a + 1) next d k)

  -- `rpcCall` makes requests until one has a result, but no more than the retries and one; it returns
  -- that result, or the last error. Before each request but the first it waits, twice as long each
  -- time. It leaves the status connected after a result, and at the error status otherwise.
  pub rpc_call_lem :
      (c : Client)
      → rpc_call net method params c ≡ (
        settle
            (first_success
              (outcomes (c.max_retries + 1) c.endpoint c.rpc_id)
              (thrown (codes "RPC call failed")))
            (advance 0 (requests_made (outcomes (c.max_retries + 1) c.endpoint c.rpc_id)) c),
        first_success
            (outcomes (c.max_retries + 1) c.endpoint c.rpc_id)
            (thrown (codes "RPC call failed")),
      )
  unfolding rpc_call
  rpc_call_lem c = rpc_loop_lem (c.max_retries + 1) 0 _ c (omega arith)
