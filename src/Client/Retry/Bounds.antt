-- ===== src/Client/Retry/Bounds.antt =====
-- The numbers of requests and the delays of `rpcCall`.
use resistance_network.Common.{
  ℕ, zero, suc, ◌+◌, ◌-◌, ◌*◌, ◌^◌, ◌≤◌, ◌≡◌, refl, ap, List, [], ◌∷◌, ◌++◌, length, Text, codes,
  Result, ok, err, thrown, arith, subst,
}
use native.Mathlib.Numerals.{towards_suc}
use resistance_network.Json.{Json, Request, Reply}
use resistance_network.Client.{Client, set_status, note_success, rpc_call}
use resistance_network.Client.Retry.{
  first_success, requests_made, requests_made_pos, backoff, settle, advance, outcomes, rpc_call_lem,
}

abbrev pub total : List ℕ → ℕ
total [] = 0
total (x ∷ xs) = x + total xs

two-pow-suc : (k : ℕ) → 2 ^ (k + 1) ≡ 2 * 2 ^ k
two-pow-suc k = simp towards_suc (omega arith)

total-backoff : (delay a n : ℕ) → total (backoff delay a n) + delay * 2 ^ a ≡ delay * 2 ^ (a + n)
unfolding backoff
total-backoff delay a zero =
    omega (arith, ap (λ (k : ℕ). delay * 2 ^ k) {x = a} {y = a + 0} (omega arith))
total-backoff delay a (suc n) = omega (
  arith,
  total-backoff delay (a + 1) n,
  ap (λ (k : ℕ). delay * 2 ^ k) {x = a + 1 + n} {y = a + suc n} (omega arith),
  ap (λ (k : ℕ). delay * k) (two-pow-suc a),
)

length-backoff : (delay a n : ℕ) → length (backoff delay a n) ≡ n
unfolding backoff
length-backoff delay a zero = refl
length-backoff delay a (suc n) = ap suc (length-backoff delay (a + 1) n)

pow_mono : (m d : ℕ) → 2 ^ m ≤ 2 ^ (m + d)
pow_mono m zero = omega (arith, ap (λ (k : ℕ). 2 ^ k) {x = m + 0} {y = m} (omega arith))
pow_mono m (suc d) = omega (
  arith,
  pow_mono m d,
  two-pow-suc (m + d),
  ap (λ (k : ℕ). 2 ^ k) {x = m + suc d} {y = m + d + 1} (omega arith),
)

mul_mono : (d a b : ℕ) → a ≤ b → d * a ≤ d * b
mul_mono d a b h = grind arith

total-backoff-le : (delay n m : ℕ) → n ≤ m → total (backoff delay 0 n) + delay ≤ delay * 2 ^ m
total-backoff-le delay n m h = omega (
  arith,
  total-backoff delay 0 n,
  ap (λ (k : ℕ). delay * 2 ^ k) {x = 0 + n} {y = n} (omega arith),
  mul_mono delay (2 ^ n) (2 ^ (n + (m - n))) (pow_mono n (m - n)),
  ap (λ (k : ℕ). delay * 2 ^ k) {x = n + (m - n)} {y = m} (omega arith),
)

requests_made-le {ℓ} : {A : Type ℓ} (rs : List (Result A)) → requests_made rs ≤ length rs
unfolding requests_made
requests_made-le [] = omega arith
requests_made-le (ok v ∷ rs) = omega arith
requests_made-le (err e ∷ rs) = omega (arith, requests_made-le rs)

module _ {ℓ} {A : Type ℓ} (net : Request → Reply A) (method : Text) (params : List Json) where
  length-outcomes :
      (n : ℕ) (endpoint : Text) (id : ℕ) → length (outcomes net method params n endpoint id) ≡ n
  unfolding outcomes
  length-outcomes zero endpoint id = refl
  length-outcomes (suc n) endpoint id = ap suc (length-outcomes n endpoint (id + 1))

  settle_keeps :
      (r : Result A) (c : Client)
      → ((settle r c).rpc_id ≡ c.rpc_id) × ((settle r c).waits ≡ c.waits)
  unfolding note_success set_status
  settle_keeps (ok v) c = ground arith
  settle_keeps (err e) c = (refl, refl)

  suc_made :
      (k : ℕ) (c : Client)
      → 1 ≤ requests_made (outcomes net method params (suc k) c.endpoint c.rpc_id)
  unfolding outcomes
  suc_made k c = requests_made_pos _ _

  made_pos :
      (c : Client)
      → 1 ≤ requests_made (outcomes net method params (c.max_retries + 1) c.endpoint c.rpc_id)
  made_pos c =
      subst (λ (k : ℕ). 1 ≤ requests_made (outcomes net method params k c.endpoint c.rpc_id))
        {x = suc c.max_retries} (omega arith) (suc_made c.max_retries c)

  -- A call makes one request at least, and no more than the retries and one. It waits less often than
  -- it makes requests, in all less than `reconnect_delay` times 2 ^ `max_retries` unless that is 0.
  pub rpc_call_bounds :
      (c : Client)
      → (n : ℕ) × (w : List ℕ) × ((rpc_call net method params c).0.rpc_id ≡ c.rpc_id + n)
        × (1 ≤ n)
        × (n ≤ c.max_retries + 1)
        × ((rpc_call net method params c).0.waits ≡ c.waits ++ w)
        × (length w + 1 ≡ n)
        × (total w + c.reconnect_delay ≤ c.reconnect_delay * 2 ^ c.max_retries)
  rpc_call_bounds c =
      let rs = outcomes net method params (c.max_retries + 1) c.endpoint c.rpc_id in
      let n = requests_made rs in
      let some_made : 1 ≤ n = made_pos c in
      let few : n ≤ c.max_retries + 1 =
        omega
          (arith, requests_made-le rs, length-outcomes (c.max_retries + 1) c.endpoint c.rpc_id) in
      let (ids, waits) =
        settle_keeps (first_success rs (thrown (codes "RPC call failed"))) (advance 0 n c) in
      (
        n,
        backoff c.reconnect_delay 0 (n - 1),
        rw (rpc_call_lem net method params c) ids,
        some_made,
        few,
        rw (rpc_call_lem net method params c) waits,
        omega (arith, length-backoff c.reconnect_delay 0 (n - 1)),
        total-backoff-le c.reconnect_delay (n - 1) c.max_retries (omega arith),
      )
