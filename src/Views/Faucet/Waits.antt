-- ===== src/Views/Faucet/Waits.antt =====
-- The wait between two claims of src/components/views/FaucetView.tsx.
use resistance_network.Common.{
  ℕ, zero, suc, ◌+◌, ◌*◌, ◌/◌, ◌≤◌, ◌<◌, ◌≡◌, ◌≢◌, refl, sym, subst, true, List, [], ◌∷◌, Text,
  length, take, Option, none, some, Result, ok, err, arith, either_way,
}
use resistance_network.Api.Writes.{FaucetClaim}
use resistance_network.Views.Faucet.{
  cooldown_ms, ClaimHistory, Faucet, or_null, mounted, cooldown_remaining, WalletView, can_claim,
  hours, minutes, seconds, begin_for, begin_claim, end_claim, Reachable, opened, waited, clicked,
  settled, reopened,
}

-- The last of these claims is a day before the time, or there is none.
abbrev pub Follows : ℕ → List ClaimHistory → Type 0
Follows t [] = Unit {0}
Follows t (c ∷ r) = c.timestamp + cooldown_ms ≤ t

-- Each claim comes a day behind the one before it.
abbrev pub IsSpaced : List ClaimHistory → Type 0
IsSpaced [] = Unit {0}
IsSpaced (c ∷ r) = Follows c.timestamp r × IsSpaced r

Follows-take : (n t : ℕ) (h : List ClaimHistory) → Follows t h → Follows t (take n h)
Follows-take zero t h p = tt
Follows-take (suc n) t [] p = tt
Follows-take (suc n) t (c ∷ r) p = p

IsSpaced-take : (n : ℕ) (h : List ClaimHistory) → IsSpaced h → IsSpaced (take n h)
IsSpaced-take zero h p = tt
IsSpaced-take (suc n) [] p = tt
IsSpaced-take (suc n) (c ∷ r) (p, q) = (Follows-take n c.timestamp r p, IsSpaced-take n r q)

length-take_le : (n : ℕ) (h : List ClaimHistory) → length (take n h) ≤ n
length-take_le zero h = omega arith
length-take_le (suc n) [] = omega arith
length-take_le (suc n) (c ∷ r) = omega (arith, length-take_le n r)

Follows-later : (t u : ℕ) (h : List ClaimHistory) → t ≤ u → Follows t h → Follows u h
Follows-later t u [] l p = tt
Follows-later t u (c ∷ r) l p = omega arith

-- The last claim and what is stored are those of the history.
abbrev Agrees : ℕ → Option ℕ → Option (ℕ × List ClaimHistory) → List ClaimHistory → Type 0
Agrees now last stored [] = (last ≡ none) × (stored ≡ none)
Agrees now last stored (c ∷ r) =
    (last ≡ some c.timestamp)
    × (stored ≡ some (c.timestamp, c ∷ r))
    × (c.timestamp ≢ 0)
    × (c.timestamp ≤ now)

Agrees-later :
    (now later : ℕ) (last : Option ℕ) (stored : Option (ℕ × List ClaimHistory))
    (h : List ClaimHistory)
    → now ≤ later
    → Agrees now last stored h
    → Agrees later last stored h
Agrees-later now later last stored [] l p = p
Agrees-later now later last stored (c ∷ r) l (p, q, z, b) = (p, q, z, omega arith)

record IsPatient (now : ℕ) (f : Faucet) : Type 0 where
  agrees : Agrees now f.last_claim f.stored f.history
  due : f.claiming ≡ true → Follows now f.history
  spaced : IsSpaced f.history
  few : length f.history ≤ 10

or_null-positive : (t : ℕ) → t ≢ 0 → or_null t ≡ some t
or_null-positive t h = ground arith

Follows-can_claim :
    (now rendered : ℕ) (last : Option ℕ) (stored : Option (ℕ × List ClaimHistory))
    (h : List ClaimHistory)
    → Agrees now last stored h
    → rendered ≤ now
    → cooldown_remaining rendered last ≡ 0
    → Follows now h
unfolding cooldown_remaining
Follows-can_claim now rendered last stored [] a l e = tt
Follows-can_claim now rendered last stored (c ∷ r) (p, q, z, b) l e =
    let e' : cooldown_remaining rendered (some c.timestamp) ≡ 0 =
      subst (λ o. cooldown_remaining rendered o ≡ 0) p e in
    ground arith

mounted-IsPatient : (now : ℕ) (f : Faucet) → IsPatient now f → IsPatient now (mounted f.stored)
unfolding mounted
mounted-IsPatient now f p = reopen f.last_claim f.stored f.history p.agrees p.spaced p.few
  where
    reopen :
        (last : Option ℕ) (stored : Option (ℕ × List ClaimHistory)) (h : List ClaimHistory)
        → Agrees now last stored h
        → IsSpaced h
        → length h ≤ 10
        → IsPatient now (mounted stored)
    reopen last stored [] (a, b) s l =
        subst (λ o. IsPatient now (mounted o)) (sym b)
          (record { agrees = (refl, refl); due = λ e. absurd (cc); spaced = tt; few = omega arith })
    reopen last stored (c ∷ r) (a, b, z, t) s l =
        subst (λ o. IsPatient now (mounted o)) (sym b)
          (record {
            agrees = (or_null-positive c.timestamp z, refl, z, t);
            due = λ e. absurd (cc);
            spaced = s;
            few = l;
          })

can_claim-remaining :
    (rendered : ℕ) (w : WalletView) (f : Faucet)
    → can_claim rendered w f ≡ true
    → cooldown_remaining rendered f.last_claim ≡ 0
unfolding can_claim
can_claim-remaining rendered w f h = ground arith

begin_for-IsPatient :
    (now rendered : ℕ) (w : WalletView) (a : Option Text) (f : Faucet)
    → rendered ≤ now
    → IsPatient now f
    → IsPatient now (begin_for rendered w a f)
unfolding begin_for
begin_for-IsPatient now rendered w none f l p = p
begin_for-IsPatient now rendered w (some []) f l p = p
begin_for-IsPatient now rendered w (some (c ∷ a)) f l p =
    either_way (IsPatient now) (can_claim rendered w f) _ _
      (λ h. record {
        agrees = p.agrees;
        due = λ e.
            Follows-can_claim now rendered f.last_claim f.stored f.history p.agrees l
              (can_claim-remaining rendered w f h);
        spaced = p.spaced;
        few = p.few;
      })
      (λ h. p)

end_claim-IsPatient :
    (now : ℕ) (amount_text : Text) (r : Result FaucetClaim) (f : Faucet)
    → now ≢ 0
    → f.claiming ≡ true
    → IsPatient now f
    → IsPatient now (end_claim now amount_text r f)
unfolding end_claim
end_claim-IsPatient now text (ok claim) f z c p = record {
  agrees = (refl, refl, z, omega arith);
  due = λ e. absurd (cc);
  spaced = (Follows-take 9 now f.history (p.due c), IsSpaced-take 9 f.history p.spaced);
  few = omega (arith, length-take_le 9 f.history);
}
end_claim-IsPatient now text (err e) f z c p = record {
  agrees = p.agrees;
  due = λ b. absurd (cc);
  spaced = p.spaced;
  few = p.few;
}

Reachable-now : (now : ℕ) (f : Faucet) → Reachable now f → now ≢ 0
Reachable-now _ _ (opened now z) = z
Reachable-now _ _ (waited {f} now later l r) = let z = Reachable-now now f r in omega arith
Reachable-now _ _ (clicked {f} now rendered w l r) = Reachable-now now f r
Reachable-now _ _ (settled {f} now text res c r) = Reachable-now now f r
Reachable-now _ _ (reopened {f} now c r) = Reachable-now now f r

Reachable-IsPatient : (now : ℕ) (f : Faucet) → Reachable now f → IsPatient now f
unfolding begin_claim mounted
Reachable-IsPatient _ _ (opened now z) = record {
  agrees = (refl, refl);
  due = λ e. absurd (cc);
  spaced = tt;
  few = omega arith;
}
Reachable-IsPatient _ _ (waited {f} now later l r) =
    let p = Reachable-IsPatient now f r in
    record {
      agrees = Agrees-later now later f.last_claim f.stored f.history l p.agrees;
      due = λ e. Follows-later now later f.history l (p.due e);
      spaced = p.spaced;
      few = p.few;
    }
Reachable-IsPatient _ _ (clicked {f} now rendered w l r) =
    begin_for-IsPatient now rendered w w.address f l (Reachable-IsPatient now f r)
Reachable-IsPatient _ _ (settled {f} now text res c r) =
    end_claim-IsPatient now text res f (Reachable-now now f r) c (Reachable-IsPatient now f r)
Reachable-IsPatient _ _ (reopened {f} now c r) =
    mounted-IsPatient now f (Reachable-IsPatient now f r)

-- Whatever the user clicks and the faucet answers, the history of the page holds at most ten claims,
-- each of them at least 24 hours behind the one before it, as long as the clock does not go back and the
-- page is not closed while a claim is under way; a claim that is under way is itself due.
pub Reachable-IsSpaced :
    (now : ℕ) (f : Faucet)
    → Reachable now f
    → (length f.history ≤ 10) × IsSpaced f.history × (f.claiming ≡ true → Follows now f.history)
Reachable-IsSpaced now f r = let p = Reachable-IsPatient now f r in (p.few, p.spaced, p.due)

-- The hours, minutes and seconds shown add up to the wait, rounded down to a second, and minutes and
-- seconds stay below 60.
format_cooldown_bounds :
    (ms : ℕ)
    → (hours ms * 3600 + minutes ms * 60 + seconds ms ≡ ms / 1000)
      × (minutes ms < 60)
      × (seconds ms < 60)
format_cooldown_bounds ms = (omega arith, omega arith, omega arith)
