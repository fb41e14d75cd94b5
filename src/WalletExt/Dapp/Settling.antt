-- ===== src/WalletExt/Dapp/Settling.antt =====
-- A request of a page is settled once.
use resistance_network.Common.{
  ℕ, ◌+◌, ◌≤◌, ◌≡◌, refl, sym, ap, ◌∙◌, Bool, false, List, [], ◌∷◌, ◌++◌, Text, codes, text_eq,
  text_eq_sound, Option, none, some, arith, inl, inr, Bool-cases, either_way,
}
use resistance_network.WalletExt.Platform.{Platform}
use resistance_network.WalletExt.Background.{closed}
use resistance_network.WalletExt.Background.Messages.{Moment}
use resistance_network.WalletExt.Dapp.{
  DappRequest, Sender, Pending, Worker, origin_of, dapp_id, asked, request_confirmation,
}
use resistance_network.WalletExt.Dapp.Events.{
  Event, requested, confirmed, timed_out, told, Output, pending_of, forget_pending, request,
  settle_found, settle, react, run,
}
use resistance_network.WalletExt.Dapp.Waiting.{
  count, count-append, left_of, waiting, waiting-append_same, waiting-append_other,
  waiting-forget_same, waiting-forget_other, dapp_id-fresh,
}

-- One event answers a request, or leaves it waiting; numbers are never used again.
abbrev Conserves : ℕ → Worker → Worker × Output → Type 0
Conserves k s (s', out) =
    (count (dapp_id k) out + waiting (dapp_id k) s'.pending ≡ waiting (dapp_id k) s.pending)
    × (s.dapp_seq ≤ s'.dapp_seq)

module _ (platform : Platform) (url_origin : Text → Option Text) (m : Moment) where
  request-Conserves :
      (k : ℕ) (sender : Sender) (r : DappRequest) (s : Worker)
      → k ≤ s.dapp_seq
      → Conserves k s (request platform url_origin m sender r s)
  unfolding request request_confirmation
  request-Conserves k sender r s h =
      either_way (Conserves k s) (closed s.wallet) _ _ (λ _. (omega arith, omega arith))
        λ _.
          either_way (Conserves k s) (text_eq (origin_of url_origin sender) (codes "unknown")) _ _
            (λ _. (omega arith, omega arith))
            λ _. (
              omega (
                arith,
                waiting-append_other (dapp_id k)
                    (asked r (origin_of url_origin sender) (dapp_id (s.dapp_seq + 1))) s.pending
                    (dapp_id-fresh s.dapp_seq k h),
              ),
              omega arith,
            )

  settle_found-Conserves :
      (k : ℕ) (approved : Bool) (o : Option Pending) (id : Text) (s : Worker)
      → pending_of id s.pending ≡ o
      → Conserves k s (settle_found platform url_origin m approved o id s)
  settle_found-Conserves k approved none id s e = (omega arith, omega arith)
  settle_found-Conserves k approved (some p) id s e = elim (Bool-cases (text_eq id (dapp_id k))) [
    | inl same ↦
        let at : id ≡ dapp_id k = text_eq_sound id (dapp_id k) same in
        (
          rw same (
              omega (
                arith,
                ap (λ i. waiting i (forget_pending id s.pending)) (sym at),
                waiting-forget_same id s.pending,
                ap left_of (sym (ap (λ i. pending_of i s.pending) at) ∙ e),
              )),
          omega arith,
        )
    | inr other ↦
        (rw other (omega (arith, waiting-forget_other (dapp_id k) id s.pending other)), omega arith)
  ]

  react-Conserves :
      (k : ℕ) (e : Event) (s : Worker)
      → k ≤ s.dapp_seq
      → Conserves k s (react platform url_origin m e s)
  unfolding react settle
  react-Conserves k (requested sender r) s h = request-Conserves k sender r s h
  react-Conserves k (confirmed id approved) s h = settle_found-Conserves k approved _ id s refl
  react-Conserves k (timed_out id) s h = settle_found-Conserves k false _ id s refl
  react-Conserves k (told message) s h = (omega arith, omega arith)

  timed_out-waiting :
      (id : Text) (s : Worker)
      → waiting id (react platform url_origin m (timed_out id) s).0.pending ≡ 0
  unfolding react settle
  timed_out-waiting id s = found_waiting (pending_of id s.pending) refl
    where
      found_waiting :
          (o : Option Pending)
          → pending_of id s.pending ≡ o
          → waiting id (settle_found platform url_origin m false o id s).0.pending ≡ 0
      found_waiting none e = ap left_of e
      found_waiting (some p) e = waiting-forget_same id s.pending

module _ (platform : Platform) (url_origin : Text → Option Text) where
  run-Conserves :
      (k : ℕ) (es : List (Moment × Event)) (s : Worker)
      → k ≤ s.dapp_seq
      → Conserves k s (run platform url_origin es s)
  unfolding run
  run-Conserves k [] s h = (omega arith, omega arith)
  run-Conserves k ((m, e) ∷ es) s h =
      let here = react-Conserves platform url_origin m k e s h in
      let rest =
        run-Conserves k es (react platform url_origin m e s).0 (omega (arith, here.1, h)) in
      (
        omega (
          arith,
          here.0,
          rest.0,
          count-append (dapp_id k) (react platform url_origin m e s).1
              (run platform url_origin es (react platform url_origin m e s).0).1,
        ),
        omega (arith, here.1, rest.1),
      )

  run-waiting :
      (m : Moment) (id : Text) (es : List (Moment × Event)) (s : Worker)
      → waiting id (run platform url_origin (es ++ (m, timed_out id) ∷ []) s).0.pending ≡ 0
  unfolding run
  run-waiting m id [] s = timed_out-waiting platform url_origin m id s
  run-waiting m id ((n, e) ∷ es) s = run-waiting m id es (react platform url_origin n e s).0

  request-known :
      (m : Moment) (sender : Sender) (r : DappRequest) (s : Worker)
      → closed s.wallet ≡ false
      → text_eq (origin_of url_origin sender) (codes "unknown") ≡ false
      → request platform url_origin m sender r s
        ≡ (request_confirmation r (origin_of url_origin sender) s, [])
  unfolding request
  request-known m sender r s h known = rw (h, known) refl

  waiting-request_confirmation :
      (r : DappRequest) (origin : Text) (s : Worker)
      → waiting (dapp_id (s.dapp_seq + 1)) (request_confirmation r origin s).pending ≡ 1
  unfolding request_confirmation
  waiting-request_confirmation r origin s =
      waiting-append_same (asked r origin (dapp_id (s.dapp_seq + 1))) s.pending

  seq-request_confirmation :
      (r : DappRequest) (origin : Text) (s : Worker)
      → (request_confirmation r origin s).dapp_seq ≡ s.dapp_seq + 1
  unfolding request_confirmation
  seq-request_confirmation r origin s = refl

  -- A request that an open wallet takes from a page whose origin is known is settled exactly once:
  -- whatever happens behind it, once its timer has fired, there has been one outcome of it, no less and
  -- no more. The service worker is not restarted in between.
  pub request-run :
      (m n : Moment) (sender : Sender) (r : DappRequest) (s : Worker) (es : List (Moment × Event))
      → closed s.wallet ≡ false
      → text_eq (origin_of url_origin sender) (codes "unknown") ≡ false
      → count
          (dapp_id (s.dapp_seq + 1))
          (run platform url_origin
            (es ++ (n, timed_out (dapp_id (s.dapp_seq + 1))) ∷ [])
            (request platform url_origin m sender r s).0).1
        ≡ 1
  request-run m n sender r s es h known =
      let k = s.dapp_seq + 1 in
      let later = es ++ (n, timed_out (dapp_id k)) ∷ [] in
      let s' = request_confirmation r (origin_of url_origin sender) s in
      let seq = seq-request_confirmation r (origin_of url_origin sender) s in
      ap (λ (w : Worker × Output). count (dapp_id k) (run platform url_origin later w.0).1)
        (request-known m sender r s h known)
      ∙ omega (
        arith,
        (run-Conserves k later s' (omega (arith, seq))).0,
        run-waiting n (dapp_id k) es s',
        waiting-request_confirmation r (origin_of url_origin sender) s,
      )
