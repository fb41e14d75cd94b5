-- ===== src/Client/Listeners.antt =====
-- The callbacks of `onStatusChange`.
use resistance_network.Common.{
  ℕ, ◌≡◌, refl, ap, ◌∙◌, true, false, List, [], ◌∷◌, ◌++◌, map, ◌==◌, ==_iff, ==_refl,
  if◌then◌else◌, arith, Bool-cases, inl, inr, append_assoc, append-nil,
}
use resistance_network.Client.{
  Status, Client, contains, add, remove, on_status_change, unsubscribe, set_status,
}

-- A set: each callback once.
abbrev pub IsDistinct : List ℕ → Type 0
IsDistinct [] = Unit
IsDistinct (x ∷ xs) = (contains x xs ≡ false) × IsDistinct xs

contains-append :
    (a : ℕ) (xs : List ℕ) (b : ℕ)
    → contains a (xs ++ b ∷ []) ≡ (if contains a xs then true else b == a)
contains-append a [] b = ground arith
contains-append a (x ∷ xs) b = ground (arith, contains-append a xs b)

append-IsDistinct :
    (a : ℕ) (xs : List ℕ) → contains a xs ≡ false → IsDistinct xs → IsDistinct (xs ++ a ∷ [])
append-IsDistinct a [] h d = (refl, tt)
append-IsDistinct a (x ∷ xs) h d =
    (ground (arith, contains-append x xs a), append-IsDistinct a xs (ground arith) d.1)

add-IsDistinct : (a : ℕ) (xs : List ℕ) → IsDistinct xs → IsDistinct (add a xs)
add-IsDistinct a xs d = elim (Bool-cases (contains a xs)) [
  | inl old ↦ rw old d
  | inr new ↦ rw new (append-IsDistinct a xs new d)
]

contains-remove : (a b : ℕ) (xs : List ℕ) → contains a xs ≡ false → contains a (remove b xs) ≡ false
contains-remove a b [] h = refl
contains-remove a b (x ∷ xs) h = ground (arith, contains-remove a b xs)

remove-IsDistinct : (b : ℕ) (xs : List ℕ) → IsDistinct xs → IsDistinct (remove b xs)
remove-IsDistinct b [] d = tt
remove-IsDistinct b (x ∷ xs) d = ground (arith, contains-remove x b xs, remove-IsDistinct b xs)

contains-remove_self : (b : ℕ) (xs : List ℕ) → contains b (remove b xs) ≡ false
contains-remove_self b [] = refl
contains-remove_self b (x ∷ xs) = ground (arith, contains-remove_self b xs)

contains-add : (a : ℕ) (xs : List ℕ) → contains a (add a xs) ≡ true
contains-add a xs = ground (arith, contains-append a xs a)

-- The statuses that a callback was called with, in order.
pub heard : ℕ → List (ℕ × Status) → List Status
heard cb [] = []
heard cb ((x, s) ∷ log) = if x == cb then s ∷ heard cb log else heard cb log

heard-append :
    (cb : ℕ) (xs ys : List (ℕ × Status)) → heard cb (xs ++ ys) ≡ heard cb xs ++ heard cb ys
unfolding heard
heard-append cb [] ys = refl
heard-append cb ((x, s) ∷ xs) ys = ground (arith, heard-append cb xs ys)

-- One round over callbacks that hold each once.
heard_none :
    (cb : ℕ) (s : Status) (xs : List ℕ)
    → contains cb xs ≡ false
    → heard cb (map (λ x. (x, s)) xs) ≡ []
unfolding heard
heard_none cb s [] h = refl
heard_none cb s (x ∷ xs) h = ground (arith, heard_none cb s xs)

heard_once :
    (cb : ℕ) (s : Status) (xs : List ℕ)
    → IsDistinct xs
    → heard cb (map (λ x. (x, s)) xs) ≡ (if contains cb xs then s ∷ [] else [])
unfolding heard
heard_once cb s [] d = refl
heard_once cb s (x ∷ xs) d = elim (Bool-cases (x == cb)) [
  | inl here ↦
      let same : x ≡ cb = (==_iff x cb).0 here in
      rw here (ap (λ t. s ∷ t) (heard_none cb s xs (rw (← same) d.0)))
  | inr other ↦ rw other (heard_once cb s xs d.1)
]

-- Where callbacks are registered once each, a change of status calls each of them once with the new status, and no other.
set_status-heard :
    (cb : ℕ) (s : Status) (c : Client)
    → IsDistinct c.listeners
    → heard cb (set_status s c).calls
      ≡ heard cb c.calls ++ (if contains cb c.listeners then s ∷ [] else [])
unfolding set_status
set_status-heard cb s c d =
    heard-append cb c.calls _ ∙ ap (λ t. heard cb c.calls ++ t) (heard_once cb s c.listeners d)

-- Callbacks that are registered once each stay so. A callback that registers hears the present status at once,
-- also if it was registered before, and then the next change; one that is removed hears no change.
subscription_lem :
    (cb : ℕ) (s : Status) (c : Client)
    → IsDistinct c.listeners
    → IsDistinct (on_status_change cb c).listeners
      × IsDistinct (unsubscribe cb c).listeners
      × (heard cb (set_status s (on_status_change cb c)).calls
          ≡ heard cb c.calls ++ (c.status ∷ s ∷ []))
      × (heard cb (set_status s (unsubscribe cb c)).calls ≡ heard cb c.calls)
unfolding on_status_change unsubscribe
subscription_lem cb s c d =
    let added = add-IsDistinct cb c.listeners d in
    let removed = remove-IsDistinct cb c.listeners d in
    (
      added,
      removed,
      set_status-heard cb s _ added
          ∙ rw (contains-add cb c.listeners, heard-append cb c.calls)
              (rw (heard_self cb c.status)
                (append_assoc (heard cb c.calls) (c.status ∷ []) (s ∷ []))),
      set_status-heard cb s _ removed
          ∙ rw (contains-remove_self cb c.listeners) (append-nil (heard cb c.calls)),
    )
  where
    heard_self : (x : ℕ) (t : Status) → heard x ((x, t) ∷ []) ≡ t ∷ []
    heard_self x t = unfold heard in ground (arith, ==_refl x)
