-- ===== src/Api/Mode.antt =====
-- The mode: what a call does to it, and what it does to the calls.
use resistance_network.Common.{
  ◌+◌, ◌≡◌, refl, ap, ◌∙◌, Bool, true, false, List, Text, if◌then◌else◌, Result, ok, err, Error,
  arith,
}
use resistance_network.Json.{Json, Request, Reply}
use resistance_network.Api.{
  State, set_rpc_mode, rpc_call, rpc_call_with_fallback, rpc_call_or_throw, recover, rethrow,
}
use resistance_network.Api.Reads.{read}
use resistance_network.Api.Writes.{write}

-- The outcome of the request that a call in this state makes.
abbrev pub next_outcome {ℓ} :
    {A : Type ℓ} → (Request → Reply A) → Text → List Json → State → Result A
next_outcome net method params s = (rpc_call net method params s).1

abbrev pub value_or {ℓ} : {A : Type ℓ} → A → Result A → A
value_or d (ok a) = a
value_or d (err e) = d

abbrev pub is_ok {ℓ} : {A : Type ℓ} → Result A → Bool
is_ok (ok a) = true
is_ok (err e) = false

module _ {ℓ} {A : Type ℓ} (net : Request → Reply A) (method : Text) (params : List Json) where
  recover_lem :
      (fallback : A) (r : Result A) (s : State)
      → s.rpc_mode ≡ true
      → (recover net method params fallback (s, r)).1 ≡ value_or fallback r
  recover_lem fallback (ok a) s h = refl
  recover_lem fallback (err e) s h = refl

  recover_state :
      (fallback : A) (r : Result A) (s : State)
      → s.rpc_mode ≡ true
      → ((recover net method params fallback (s, r)).0.rpc_mode ≡ is_ok r)
        × ((recover net method params fallback (s, r)).0.rpc_id_counter ≡ s.rpc_id_counter)
  unfolding set_rpc_mode
  recover_state fallback (ok a) s h = (h, refl)
  recover_state fallback (err e) s h = ground arith

  rethrow_state :
      (r : Result A) (s : State)
      → s.rpc_mode ≡ true
      → ((rethrow net method params (s, r)).0.rpc_mode ≡ is_ok r)
        × ((rethrow net method params (s, r)).0.rpc_id_counter ≡ s.rpc_id_counter)
        × ((rethrow net method params (s, r)).1 ≡ r)
  unfolding set_rpc_mode
  rethrow_state (ok a) s h = (h, refl, refl)
  rethrow_state (err e) s h = ground arith

  read_on :
      (fallback mock : A) (s : State)
      → s.rpc_mode ≡ true
      → read net method params fallback mock s ≡ rpc_call_with_fallback net method params fallback s
  unfolding read
  read_on fallback mock s h =
      ap
        (λ (b : Bool). if b then rpc_call_with_fallback net method params fallback s else (s, mock))
        h

  pub read_off :
      (fallback mock : A) (s : State)
      → s.rpc_mode ≡ false
      → read net method params fallback mock s ≡ (s, mock)
  unfolding read
  read_off fallback mock s h =
      ap
        (λ (b : Bool). if b then rpc_call_with_fallback net method params fallback s else (s, mock))
        h

  write_on :
      (mock : A) (s : State)
      → s.rpc_mode ≡ true
      → write net method params mock s ≡ rpc_call_or_throw net method params s
  unfolding write
  write_on mock s h =
      ap (λ (b : Bool). if b then rpc_call_or_throw net method params s else (s, ok mock)) h

  write_off :
      (mock : A) (s : State) → s.rpc_mode ≡ false → write net method params mock s ≡ (s, ok mock)
  unfolding write
  write_off mock s h =
      ap (λ (b : Bool). if b then rpc_call_or_throw net method params s else (s, ok mock)) h

  -- A read with the mode on makes one request and returns its result, or the fallback if the call
  -- failed; the mode stays on exactly if the call succeeded.
  pub read_online :
      (fallback mock : A) (s : State)
      → s.rpc_mode ≡ true
      → ((read net method params fallback mock s).1
          ≡ value_or fallback (next_outcome net method params s))
        × ((read net method params fallback mock s).0.rpc_mode
            ≡ is_ok (next_outcome net method params s))
        × ((read net method params fallback mock s).0.rpc_id_counter ≡ s.rpc_id_counter + 1)
  unfolding rpc_call_with_fallback rpc_call
  read_online fallback mock s h =
      let called : State = record s { rpc_id_counter = s.rpc_id_counter + 1 } in
      let (mode, id) = recover_state fallback (next_outcome net method params s) called h in
      rw (read_on fallback mock s h)
        (recover_lem fallback (next_outcome net method params s) called h, mode, id)

  -- A write with the mode on makes one request and returns its outcome, the error too; the mode stays
  -- on exactly if the call succeeded.
  write_online :
      (mock : A) (s : State)
      → s.rpc_mode ≡ true
      → ((write net method params mock s).1 ≡ next_outcome net method params s)
        × ((write net method params mock s).0.rpc_mode ≡ is_ok (next_outcome net method params s))
        × ((write net method params mock s).0.rpc_id_counter ≡ s.rpc_id_counter + 1)
  unfolding rpc_call_or_throw rpc_call
  write_online mock s h =
      let called : State = record s { rpc_id_counter = s.rpc_id_counter + 1 } in
      let (mode, id, same) = rethrow_state (next_outcome net method params s) called h in
      rw (write_on mock s h) (same, mode, id)

  -- If a write with the mode on fails, its error is returned, and the same write again makes no request
  -- and reports success with the value that the caller of the model takes for a made-up one.
  pub write_twice :
      (mock : A) (s : State) (e : Error)
      → s.rpc_mode ≡ true
      → next_outcome net method params s ≡ err e
      → ((write net method params mock s).1 ≡ err e)
        × (write net method params mock (write net method params mock s).0
            ≡ ((write net method params mock s).0, ok mock))
  write_twice mock s e h failing =
      let (same, mode, id) = write_online mock s h in
      (same ∙ failing, write_off mock _ (mode ∙ ap is_ok failing))
