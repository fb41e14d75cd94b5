-- ===== src/WalletExt/Dapp/Waiting.antt =====
-- Requests that wait, and their identifiers.
use resistance_network.Common.{
  ℕ, ◌+◌, ◌≤◌, ◌≡◌, refl, sym, ap, ◌∙◌, false, List, [], ◌∷◌, ◌++◌, Text, codes, text_eq,
  text_eq_sound, text_eq_refl, Option, none, some, ok-injective, if◌then◌else◌, arith, inl, inr,
  Bool-cases, either_way, append-cancel,
}
use resistance_network.Common.Int.{pos}
use resistance_network.TxHelpers.BigInt.{bigint_of_text}
use resistance_network.TxHelpers.BigInt.Printing.{bigint_of_text-print_bigint}
use resistance_network.WalletExt.Dapp.{Pending, dapp_id}
use resistance_network.WalletExt.Dapp.Events.{Output, pending_of, forget_pending}

-- The replies to a request.
abbrev pub tagged : Text → Option Text → ℕ
tagged id none = 0
tagged id (some i) = if text_eq i id then 1 else 0

abbrev pub count : Text → Output → ℕ
count id [] = 0
count id ((tag, reply) ∷ out) = tagged id tag + count id out

pub count-append : (id : Text) (xs ys : Output) → count id (xs ++ ys) ≡ count id xs + count id ys
count-append id [] ys = omega arith
count-append id ((tag, reply) ∷ xs) ys = omega (arith, count-append id xs ys)

-- The replies that a request still waits for.
abbrev pub left_of : Option Pending → ℕ
left_of none = 0
left_of (some p) = 1

abbrev pub waiting : Text → List Pending → ℕ
waiting id ps = left_of (pending_of id ps)

pub waiting-append_same : (p : Pending) (ps : List Pending) → waiting p.id (ps ++ p ∷ []) ≡ 1
waiting-append_same p [] = rw (text_eq_refl p.id) refl
waiting-append_same p (q ∷ ps) =
    either_way (λ o. left_of o ≡ 1) (text_eq q.id p.id) _ _ (λ _. refl)
      λ _. waiting-append_same p ps

pub waiting-append_other :
    (id : Text) (p : Pending) (ps : List Pending)
    → text_eq p.id id ≡ false
    → waiting id (ps ++ p ∷ []) ≡ waiting id ps
waiting-append_other id p [] h = rw h refl
waiting-append_other id p (q ∷ ps) h = elim (Bool-cases (text_eq q.id id)) [
  | inl e ↦ rw e refl
  | inr e ↦ rw e (waiting-append_other id p ps h)
]

pub waiting-forget_same : (id : Text) (ps : List Pending) → waiting id (forget_pending id ps) ≡ 0
waiting-forget_same id [] = refl
waiting-forget_same id (p ∷ ps) = elim (Bool-cases (text_eq p.id id)) [
  | inl e ↦ rw e (waiting-forget_same id ps)
  | inr e ↦ rw (e, e) (waiting-forget_same id ps)
]

pub waiting-forget_other :
    (id other : Text) (ps : List Pending)
    → text_eq other id ≡ false
    → waiting id (forget_pending other ps) ≡ waiting id ps
waiting-forget_other id other [] h = refl
waiting-forget_other id other (p ∷ ps) h = elim (Bool-cases (text_eq p.id other)) [
  | inl e ↦
      let apart : text_eq p.id id ≡ false =
        ap (λ t. text_eq t id) (text_eq_sound p.id other e) ∙ h in
      rw (e, apart) (waiting-forget_other id other ps h)
  | inr e ↦ elim (Bool-cases (text_eq p.id id)) [
    | inl f ↦ rw (e, f) refl
    | inr f ↦ rw (e, f) (waiting-forget_other id other ps h)
  ]
]

dapp_id-injective : (n k : ℕ) → dapp_id n ≡ dapp_id k → n ≡ k
dapp_id-injective n k e =
    let digits = (append-cancel (codes "dapp_") (codes "dapp_") _ _ refl e).1 in
    let same : pos n ≡ pos k = ok-injective (
      sym (bigint_of_text-print_bigint (pos n))
      ∙ ap bigint_of_text digits
      ∙ bigint_of_text-print_bigint (pos k)) in
    cc

pub dapp_id-fresh : (seq k : ℕ) → k ≤ seq → text_eq (dapp_id (seq + 1)) (dapp_id k) ≡ false
dapp_id-fresh seq k h = elim (Bool-cases (text_eq (dapp_id (seq + 1)) (dapp_id k))) [
  | inl e ↦ absurd (omega (arith, dapp_id-injective (seq + 1) k (text_eq_sound _ _ e)))
  | inr e ↦ e
]
