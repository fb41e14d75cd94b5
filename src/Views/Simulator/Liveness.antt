-- ===== src/Views/Simulator/Liveness.antt =====
-- A simulation of src/components/views/BridgeSimulator.tsx that runs comes to its end.
use resistance_network.Common.{
  ℕ, ◌+◌, ◌-◌, ◌≡◌, refl, sym, subst, Bool, true, false, not, ◌&&◌, ◌||◌, List, [], ◌∷◌, Text,
  length, ◌==◌, some, arith, Bool-cases, inl, inr, either_way,
}
use resistance_network.Views.Number.{Float, parse_float, is_at_most_zero, is_empty}
use resistance_network.Views.Simulator.{
  BridgeStep, ChainId, btc, eth, Timer, Simulator, idle, reset, schedule, launch, start,
  complete_step, begin_step, fire, fire_next, settle, set_amount, switch_chain, started, stopped,
  fired, typed, switched, Reachable, begin, step,
}

abbrev is_final : Timer → Bool
is_final t = t.completes && t.is_last

-- Only the last timer ends the run, and there is one.
abbrev ends : List Timer → Bool
ends [] = false
ends (t ∷ []) = is_final t
ends (t ∷ u ∷ r) = not (is_final t) && ends (u ∷ r)

-- What runs has timers that end it, and what does not has none.
record IsLive (s : Simulator) : Type 0 where
  running : s.is_running ≡ true → ends s.timers ≡ true
  idling : s.is_running ≡ false → s.timers ≡ []

fire-timers : (now : Text) (t : Timer) (s : Simulator) → (fire now t s).timers ≡ s.timers
unfolding fire complete_step begin_step
fire-timers now t s =
    either_way (λ (u : Simulator). u.timers ≡ s.timers) t.completes _ _
      (λ h.
        either_way (λ (u : Simulator). u.timers ≡ s.timers) t.is_last _ _ (λ k. refl) (λ k. refl))
      (λ h. refl)

fire_final :
    (now : Text) (t : Timer) (s : Simulator)
    → is_final t ≡ true
    → ((fire now t s).is_running ≡ false) × ((fire now t s).active_step ≡ some 5)
unfolding fire complete_step
fire_final now t s h =
    let c : t.completes ≡ true = ground arith in
    let l : t.is_last ≡ true = ground arith in rw (c, l) (refl, refl)

fire_other :
    (now : Text) (t : Timer) (s : Simulator)
    → is_final t ≡ false
    → (fire now t s).is_running ≡ s.is_running
unfolding fire complete_step begin_step
fire_other now t s h =
    either_way (λ (u : Simulator). u.is_running ≡ s.is_running) t.completes _ _
      (λ c.
        either_way (λ (u : Simulator). u.is_running ≡ s.is_running) t.is_last _ _
          (λ l. absurd (ground arith)) (λ l. refl))
      (λ c. refl)

settle-ends :
    (clock : Timer → Text) (ts : List Timer) (s : Simulator)
    → s.timers ≡ ts
    → ends ts ≡ true
    → ((settle clock ts s).is_running ≡ false)
      × ((settle clock ts s).active_step ≡ some 5)
      × ((settle clock ts s).timers ≡ [])
unfolding settle
settle-ends clock [] s e h = absurd (cc)
settle-ends clock (t ∷ []) s e h =
    let (r, a) = fire_final (clock t) t (record s { timers = [] }) h in
    (r, a, fire-timers (clock t) t (record s { timers = [] }))
settle-ends clock (t ∷ u ∷ r) s e h =
    settle-ends clock (u ∷ r) (fire (clock t) t (record s { timers = u ∷ r }))
      (fire-timers (clock t) t (record s { timers = u ∷ r })) (ground arith)

schedule-ends :
    (chain : ChainId) (amt : Text) (total idx elapsed : ℕ) (st : BridgeStep)
    (steps : List BridgeStep)
    → idx + length (st ∷ steps) ≡ total
    → ends (schedule chain amt total idx elapsed (st ∷ steps)) ≡ true
unfolding schedule
schedule-ends chain amt total idx elapsed st [] h =
    let e : (idx == total - 1) ≡ true = ground arith in rw e refl
schedule-ends chain amt total idx elapsed st (st' ∷ steps) h =
    let e : (idx == total - 1) ≡ false = ground arith in
    rw e (
      schedule-ends chain amt total (idx + 1) (elapsed + st.duration + 200) st' steps (omega arith))

launch-ends :
    (print : Float → Text) (now : Text) (c : ChainId) (s : Simulator)
    → s.chain ≡ c
    → ends (launch print now s).timers ≡ true
unfolding launch
launch-ends print now btc s e = rw e (schedule-ends btc _ 5 0 0 _ _ (omega arith))
launch-ends print now eth s e = rw e (schedule-ends eth _ 5 0 0 _ _ (omega arith))

launch-IsLive : (print : Float → Text) (now : Text) (s : Simulator) → IsLive (launch print now s)
unfolding launch
launch-IsLive print now s = record {
  running = λ e. launch-ends print now s.chain s refl;
  idling = λ e. absurd (cc);
}

reset-IsLive : (s : Simulator) → IsLive (reset s)
unfolding reset
reset-IsLive s = record { running = λ e. absurd (cc); idling = λ e. refl }

fire_next-IsLive :
    (now : Text) (ts : List Timer) (s : Simulator)
    → s.timers ≡ ts
    → IsLive s
    → IsLive (fire_next now ts s)
unfolding fire_next
fire_next-IsLive now [] s e p = p
fire_next-IsLive now (t ∷ []) s e p =
    let s' : Simulator = record s { timers = [] } in
    let kept = fire-timers now t s' in
    elim (Bool-cases s.is_running) [
      | inl on ↦
          let last : is_final t ≡ true = subst (λ ts. ends ts ≡ true) e (p.running on) in
          let off = (fire_final now t s' last).0 in
          record { running = λ h. absurd (cc); idling = λ h. kept }
      | inr off ↦ let none_left = p.idling off in absurd (cc)
    ]
fire_next-IsLive now (t ∷ u ∷ r) s e p =
    let s' : Simulator = record s { timers = u ∷ r } in
    let kept = fire-timers now t s' in
    elim (Bool-cases s.is_running) [
      | inl on ↦
          let left : ends (t ∷ u ∷ r) ≡ true = subst (λ ts. ends ts ≡ true) e (p.running on) in
          let other : is_final t ≡ false = ground arith in
          let same = fire_other now t s' other in
          let behind : ends (u ∷ r) ≡ true = ground arith in
          record {
            running = λ h. subst (λ ts. ends ts ≡ true) (sym kept) behind;
            idling = λ h. absurd (cc);
          }
      | inr off ↦ let none_left = p.idling off in absurd (cc)
    ]

Reachable-IsLive : (s : Simulator) → Reachable s → IsLive s
unfolding idle start set_amount switch_chain
Reachable-IsLive _ begin = record { running = λ e. absurd (cc); idling = λ e. refl }
Reachable-IsLive _ (step {s} r (started print now)) =
    either_way IsLive (is_empty s.amount || is_at_most_zero (parse_float s.amount)) _ _
      (λ h. Reachable-IsLive s r) (λ h. launch-IsLive print now s)
Reachable-IsLive _ (step {s} r stopped) = reset-IsLive s
Reachable-IsLive _ (step {s} r (fired now)) =
    fire_next-IsLive now s.timers s refl (Reachable-IsLive s r)
Reachable-IsLive _ (step {s} r (typed a)) =
    let p = Reachable-IsLive s r in
    either_way IsLive (not s.is_running) _ _
      (λ h. record { running = p.running; idling = p.idling }) (λ h. p)
Reachable-IsLive _ (step {s} r (switched c)) =
    either_way IsLive s.is_running _ _ (λ h. Reachable-IsLive s r)
      (λ h. reset-IsLive (record s { chain = c }))

-- From every state that the page can reach while a simulation runs, its timers bring it to its end: it
-- no longer runs, its step is 5, which stands for done, and no timer is left; while none runs, no timer
-- is left.
pub Reachable-settle :
    (clock : Timer → Text) (s : Simulator)
    → Reachable s
    → (s.is_running ≡ true
        → ((settle clock s.timers s).is_running ≡ false)
          × ((settle clock s.timers s).active_step ≡ some 5)
          × ((settle clock s.timers s).timers ≡ []))
      × (s.is_running ≡ false → s.timers ≡ [])
Reachable-settle clock s r =
    let p = Reachable-IsLive s r in
    ((λ h. settle-ends clock s.timers s refl (p.running h)), p.idling)
