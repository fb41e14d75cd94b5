-- ===== src/Client/Monitor.antt =====
-- The health monitor and the reconnection.
use resistance_network.Common.{
  ℕ, zero, suc, ◌+◌, ◌-◌, ◌*◌, ◌^◌, ◌≤◌, ◌<◌, ◌≡◌, ◌⊎◌, inl, inr, refl, sym, ap, ◌∙◌, false, codes,
  [], ltb, Result, ok, err, arith, Bool-cases,
}
use resistance_network.Json.{Request, Reply}
use resistance_network.Client.{
  Status, Client, is_connected, set_status, wait, note_success, succeeded, health, reconnect_loop,
  attempt_reconnect, health_tick,
}
use resistance_network.Client.Retry.{settle, rpc_call_lem}

module _ {ℓ} {A : Type ℓ} (net : Request → Reply A) where
  settle_status : (r : Result A) (c : Client) → is_connected (settle r c).status ≡ succeeded r
  unfolding note_success set_status
  settle_status (ok v) c = ground arith
  settle_status (err e) c = refl

  settle_attempts :
      (r : Result A) (c : Client)
      → succeeded r ≡ false
      → (settle r c).reconnect_attempts ≡ c.reconnect_attempts
  unfolding note_success set_status
  settle_attempts (ok v) c h = cc
  settle_attempts (err e) c h = refl

  -- After a health check the client is connected exactly when the check succeeded.
  health_status : (c : Client) → is_connected (health net c).0.status ≡ (health net c).1
  unfolding health
  health_status c = rw (rpc_call_lem net (codes "rstn_health") [] c) (settle_status _ _)

  -- A failed check leaves the count of attempts and its limit.
  health_attempts :
      (c : Client)
      → (health net c).1 ≡ false
      → (health net c).0.reconnect_attempts ≡ c.reconnect_attempts
  unfolding health
  health_attempts c h =
      let e = rpc_call_lem net (codes "rstn_health") [] c in
      rw e (settle_attempts _ _ (ap (λ (o : Client × Result A). succeeded o.1) (sym e) ∙ h))

  settle_max :
      (r : Result A) (c : Client) → (settle r c).max_reconnect_attempts ≡ c.max_reconnect_attempts
  unfolding note_success set_status
  settle_max (ok v) c = ground arith
  settle_max (err e) c = refl

  health_max : (c : Client) → (health net c).0.max_reconnect_attempts ≡ c.max_reconnect_attempts
  unfolding health
  health_max c = rw (rpc_call_lem net (codes "rstn_health") [] c) (settle_max _ _)

  -- A round of the health monitor does what its health check does, and nothing more: with no other
  -- call in between, the check has set the status that the two branches behind it ask for, so that
  -- the reconnection is never started.
  pub health_tick-health : (c : Client) → health_tick net c ≡ (health net c).0
  unfolding health_tick
  health_tick-health c = elim (Bool-cases (health net c).1) [
    | inl up ↦ rw (health_status c, up)
    | inr down ↦ rw (health_status c, down)
  ]

  -- How a reconnection ends.
  abbrev pub Ended : Client → Type 0
  Ended c =
      (c.status ≡ Status.connected) × (c.reconnect_attempts ≡ 0)
      ⊎ (c.status ≡ Status.error) × (c.max_reconnect_attempts ≤ c.reconnect_attempts)

  abbrev round : Client → Client
  round c =
      wait (c.reconnect_delay * 2 ^ (c.reconnect_attempts + 1 - 1))
        (record c { reconnect_attempts = c.reconnect_attempts + 1 })

  reconnect_loop-Ended :
      (fuel : ℕ) (c : Client)
      → c.max_reconnect_attempts < c.reconnect_attempts + fuel
      → 0 < fuel
      → Ended (reconnect_loop net fuel c)
  unfolding reconnect_loop set_status
  reconnect_loop-Ended zero c h k = absurd (omega arith)
  reconnect_loop-Ended (suc fuel) c h k =
      elim (Bool-cases (ltb c.reconnect_attempts c.max_reconnect_attempts)) [
        | inr spent ↦ rw spent (inr (refl, ground arith))
        | inl left ↦ elim (Bool-cases (health net (round c)).1) [
          | inl up ↦ rw (left, up) (inl (refl, refl))
          | inr down ↦
              rw (left, down)
                (reconnect_loop-Ended fuel (health net (round c)).0
                  (omega (arith, health_attempts (round c) down, health_max (round c)))
                  (ground arith))
        ]
      ]

  -- A reconnection ends: connected, with the count of attempts back at 0, or at the error status, with
  -- the attempts used up.
  pub attempt_reconnect-Ended : (c : Client) → Ended (attempt_reconnect net c)
  unfolding attempt_reconnect
  attempt_reconnect-Ended c =
      reconnect_loop-Ended (c.max_reconnect_attempts + 1) c (omega arith) (omega arith)
