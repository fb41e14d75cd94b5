-- ===== src/WalletExt/Page/Outcomes.antt =====
-- The promises of rstn-wallet/inpage.js over whole runs.
use resistance_network.Common.{
  ℕ, ◌+◌, ◌<◌, ◌≡◌, refl, ap, Bool, true, false, ◌&&◌, List, [], ◌∷◌, ◌++◌, Text, codes,
  if◌then◌else◌, none, arith, either_way, Bool-cases, inl, inr,
}
use resistance_network.WalletExt.Page.{
  Properties, Page, has, delete, Settled, send_request, receive, answer, expire, Event, expired,
  react, run,
}
use resistance_network.WalletExt.Page.Promises.{
  count, count-append, one_if, waiting, is_empty_answer, HasTimer, Conserves, react-Conserves,
  has-append_same, has-delete_same,
}

-- Whether some event is an answer without a response to the request.
abbrev pub some_empty : ℕ → List Event → Bool
some_empty k [] = false
some_empty k (e ∷ es) = if is_empty_answer k e then true else some_empty k es

run-Conserves :
    (k : ℕ) (es : List Event) (s : Page)
    → k < s.next_id
    → Conserves k (some_empty k es) s (run es s)
unfolding run
run-Conserves k [] s h = (omega arith, λ _. omega arith, omega arith, λ t. t)
run-Conserves k (e ∷ es) s h =
    let (most, all, seq, timed) = react-Conserves k e s h in
    let (most', all', seq', timed') = run-Conserves k es (react e s).0 (omega (arith, seq, h)) in
    let parts = count-append k (react e s).1 (run es (react e s).0).1 in
    (
      omega (arith, parts, most, most'),
      λ none_empty. omega (arith, parts, all (here _ _ none_empty), all' (there _ _ none_empty)),
      omega (arith, seq, seq'),
      λ t. timed' (timed t),
    )
  where
    here : (b c : Bool) → (if b then true else c) ≡ false → b ≡ false
    here b c h = ground arith

    there : (b c : Bool) → (if b then true else c) ≡ false → c ≡ false
    there b c h = ground arith

count-run-append :
    (k : ℕ) (es fs : List Event) (s : Page)
    → count k (run (es ++ fs) s).1 ≡ count k (run es s).1 + count k (run fs (run es s).0).1
unfolding run
count-run-append k [] fs s = omega arith
count-run-append k (e ∷ es) fs s =
    let s' = (react e s).0 in
    omega (
      arith,
      count-run-append k es fs s',
      count-append k (react e s).1 (run (es ++ fs) s').1,
      count-append k (react e s).1 (run es s').1,
    )

-- The timer of a request leaves it settled.
expire-waiting : (k : ℕ) (s : Page) → HasTimer k s → has k (expire k s).0.pending ≡ false
unfolding expire
expire-waiting k s t = elim (Bool-cases (has k s.pending)) [
  | inl on ↦ rw (on, t on) (has-delete_same k s.pending)
  | inr off ↦
      either_way (λ (r : Page × Settled). has k r.0.pending ≡ false)
        (has k s.timers && has k s.pending) _ _ (λ h. has-delete_same k s.pending) (λ h. off)
]

timer-settles :
    (k : ℕ) (s : Page)
    → k < s.next_id
    → HasTimer k s
    → count k (run (expired k ∷ []) s).1 ≡ waiting k s
unfolding run react
timer-settles k s h t =
    let (most, all, seq, timed) = react-Conserves k (expired k) s h in
    let part : count k (expire k s).1 + waiting k (expire k s).0 ≡ waiting k s = all refl in
    omega (arith, part, ap one_if (expire-waiting k s t), count-append k (expire k s).1 [])

-- The promise of a request is settled exactly once by the time its timer has fired, whatever answers
-- come before, as long as none of them comes without a response.
pub send_request-run :
    (kind : Text) (payload : Properties) (s : Page) (es : List Event)
    → some_empty s.next_id es ≡ false
    → count s.next_id (run (es ++ expired s.next_id ∷ []) (send_request kind payload s).0).1 ≡ 1
unfolding send_request
send_request-run kind payload s es h =
    let k = s.next_id in
    let s' = (send_request kind payload s).0 in
    let (most, all, seq, timed) = run-Conserves k es s' (omega arith) in
    let there = ap one_if (has-append_same k s.pending) in
    omega (
      arith,
      count-run-append k es (expired k ∷ []) s',
      timer-settles k (run es s').0 (omega (arith, seq)) (timed (λ e. has-append_same k s.timers)),
      all h,
      there,
    )

-- Once an answer without a response has come to a request that was made and waits, its promise is
-- never settled: neither by its timer nor by any other event.
pub receive-run :
    (k : ℕ) (s : Page) (es : List Event)
    → k < s.next_id
    → has k s.pending ≡ true
    → count k (run es (receive true (codes "rstn-wallet") k none s).0).1 ≡ 0
unfolding receive answer
receive-run k s es h there =
    let s' : Page = record s { pending = delete k s.pending } in
    let (most, all, seq, timed) = run-Conserves k es s' h in
    rw there (omega (arith, most, ap one_if (has-delete_same k s.pending)))
