-- ===== src/Toasts/Limit.antt =====
-- How many toasts there are.
use resistance_network.Common.{
  ℕ, suc, ◌≤◌, ◌≡◌, refl, ap, Bool, false, not, ◌||◌, List, [], ◌∷◌, ◌++◌, map, Text, text_eq,
  text_eq_sound, text_eq_refl, keep, length, All, All-append, Option, none, some, arith, Bool-cases,
  inl, inr,
}
use resistance_network.Toasts.{
  Toast, Action, add_toast, update_toast, dismiss_toast, remove_toast, Store, has, delete,
  add_to_remove_queue, queue_all, queue_dismissed, close, close_dismissed, apply_patch, reducer,
  notify, dispatch, toast, fire, Step, shown, dispatched, dismissed, fired, subscribed,
  unsubscribed, Reachable, start, step,
}

-- Keys that are there once each.
abbrev pub IsUnique : List Text → Type 0
IsUnique [] = Unit {0}
IsUnique (k ∷ ks) = (has k ks ≡ false) × IsUnique ks

pub has-append : (id k : Text) (ks : List Text) → has id (ks ++ k ∷ []) ≡ has id ks || text_eq k id
has-append id k [] = ground arith
has-append id k (x ∷ ks) = ground (arith, has-append id k ks)

text_eq-false : (s t : Text) → text_eq s t ≡ false → text_eq t s ≡ false
text_eq-false s t h = elim (Bool-cases (text_eq t s)) [
  | inl same ↦ absurd (cc (h, ap (text_eq s) (text_eq_sound t s same), text_eq_refl s))
  | inr other ↦ other
]

append-IsUnique :
    (id : Text) (ks : List Text) → has id ks ≡ false → IsUnique ks → IsUnique (ks ++ id ∷ [])
append-IsUnique id [] h u = (refl, tt)
append-IsUnique id (k ∷ ks) h u = (
  ground (arith, has-append k id ks, text_eq-false k id),
  append-IsUnique id ks (ground arith) u.1,
)

add_to_remove_queue-IsUnique :
    (id : Text) (ks : List Text) → IsUnique ks → IsUnique (add_to_remove_queue id ks)
unfolding add_to_remove_queue
add_to_remove_queue-IsUnique id ks u = elim (Bool-cases (has id ks)) [
  | inl old ↦ rw old u
  | inr new ↦ rw new (append-IsUnique id ks new u)
]

has-delete : (k id : Text) (ks : List Text) → has k ks ≡ false → has k (delete id ks) ≡ false
has-delete k id [] h = refl
has-delete k id (x ∷ ks) h = ground (arith, has-delete k id ks)

delete-IsUnique : (id : Text) (ks : List Text) → IsUnique ks → IsUnique (delete id ks)
delete-IsUnique id [] u = tt
delete-IsUnique id (k ∷ ks) u = elim (Bool-cases (text_eq k id)) [
  | inl here ↦ rw here (delete-IsUnique id ks u.1)
  | inr other ↦ rw other (has-delete k id ks u.0, delete-IsUnique id ks u.1)
]

length-map {ℓ κ} :
    {A : Type ℓ} {B : Type κ} (f : A → B) (xs : List A) → length (map f xs) ≡ length xs
length-map f [] = refl
length-map f (x ∷ xs) = ap suc (length-map f xs)

length-keep-le {ℓ} :
    {A : Type ℓ} (test : A → Bool) (xs : List A) → length (keep test xs) ≤ length xs
length-keep-le test [] = omega arith
length-keep-le test (x ∷ xs) = ground (arith, length-keep-le test xs)

module _ {ℓ} {A : Type ℓ} where
  queue_all-IsUnique :
      (ts : List (Toast A)) (ks : List Text) → IsUnique ks → IsUnique (queue_all ts ks)
  unfolding queue_all
  queue_all-IsUnique [] ks u = u
  queue_all-IsUnique (t ∷ ts) ks u =
      queue_all-IsUnique ts _ (add_to_remove_queue-IsUnique t.id ks u)

  queue_dismissed-IsUnique :
      (id : Option Text) (ts : List (Toast A)) (ks : List Text)
      → IsUnique ks
      → IsUnique (queue_dismissed id ts ks)
  unfolding queue_dismissed
  queue_dismissed-IsUnique none ts ks u = queue_all-IsUnique ts ks u
  queue_dismissed-IsUnique (some []) ts ks u = queue_all-IsUnique ts ks u
  queue_dismissed-IsUnique (some (c ∷ id)) ts ks u = add_to_remove_queue-IsUnique (c ∷ id) ks u

  length-close_dismissed :
      (id : Option Text) (ts : List (Toast A)) → length (close_dismissed id ts) ≡ length ts
  unfolding close_dismissed
  length-close_dismissed none ts = length-map close ts
  length-close_dismissed (some id) ts = length-map _ ts

  -- What a listener was told of.
  abbrev pub OneAtMost : ℕ × List (Toast A) → Type 0
  OneAtMost call = length call.1 ≤ 1

  -- At most one toast, now and in everything that a listener was told, and each timer once.
  pub record IsTidy (s : Store A) : Type ℓ where
    pub few : length s.toasts ≤ 1
    unique : IsUnique s.timeouts
    pub told : All OneAtMost s.calls

  told-All :
      (ts : List (Toast A)) (ls : List ℕ) → length ts ≤ 1 → All OneAtMost (map (λ l. (l, ts)) ls)
  told-All ts [] h = tt
  told-All ts (l ∷ ls) h = (h, told-All ts ls h)

  notify-IsTidy : (s : Store A) → IsTidy s → IsTidy (notify s)
  notify-IsTidy s w = record {
    few = w.few;
    unique = w.unique;
    told = All-append OneAtMost s.calls _ w.told (told-All s.toasts s.listeners w.few);
  }

  reducer-IsTidy : (a : Action A) (s : Store A) → IsTidy s → IsTidy (reducer a s)
  unfolding reducer
  reducer-IsTidy (add_toast t) s w = record { few = omega arith; unique = w.unique; told = w.told }
  reducer-IsTidy (update_toast p) s w = record {
    few = omega (arith, w.few, length-map (apply_patch p) s.toasts);
    unique = w.unique;
    told = w.told;
  }
  reducer-IsTidy (dismiss_toast id) s w = record {
    few = omega (arith, w.few, length-close_dismissed id s.toasts);
    unique = queue_dismissed-IsUnique id s.toasts s.timeouts w.unique;
    told = w.told;
  }
  reducer-IsTidy (remove_toast none) s w = record {
    few = omega arith;
    unique = w.unique;
    told = w.told;
  }
  reducer-IsTidy (remove_toast (some id)) s w = record {
    few = omega (arith, w.few, length-keep-le (λ t. not (text_eq t.id id)) s.toasts);
    unique = w.unique;
    told = w.told;
  }

  Step-IsTidy : (s s' : Store A) → Step s s' → IsTidy s → IsTidy s'
  unfolding toast dispatch fire
  Step-IsTidy s _ (shown content) w =
      notify-IsTidy _
        (reducer-IsTidy (add_toast _) _ (record { few = w.few; unique = w.unique; told = w.told }))
  Step-IsTidy s _ (dispatched p) w = notify-IsTidy _ (reducer-IsTidy (update_toast p) s w)
  Step-IsTidy s _ (dismissed id) w = notify-IsTidy _ (reducer-IsTidy (dismiss_toast id) s w)
  Step-IsTidy s _ (fired id h) w = notify-IsTidy _ (
      reducer-IsTidy (remove_toast (some id)) _
        (record { few = w.few; unique = delete-IsUnique id s.timeouts w.unique; told = w.told }))
  Step-IsTidy s _ (subscribed l) w = record { few = w.few; unique = w.unique; told = w.told }
  Step-IsTidy s _ (unsubscribed l) w = record { few = w.few; unique = w.unique; told = w.told }

  -- Whatever was shown, changed, dismissed and removed by its timer, in whatever order: there is at most
  -- one toast, no listener was ever told of more, and no id has two timers.
  pub Reachable-IsTidy : (s : Store A) → Reachable s → IsTidy s
  Reachable-IsTidy _ start = record { few = omega arith; unique = tt; told = tt }
  Reachable-IsTidy s (step r move) = Step-IsTidy _ s move (Reachable-IsTidy _ r)
