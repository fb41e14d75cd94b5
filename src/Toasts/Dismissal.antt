-- ===== src/Toasts/Dismissal.antt =====
-- Toasts that are dismissed.
use resistance_network.Common.{
  ℕ, ◌≡◌, refl, ap, ap₂, true, false, not, List, [], ◌∷◌, Text, text_eq, text_eq_refl, keep, All,
  Option, none, some, arith, Bool-cases, inl, inr,
}
use resistance_network.Toasts.{
  Toast, dismiss_toast, Store, has, delete, add_to_remove_queue, queue_all, queue_dismissed, close,
  close_dismissed, reducer, dispatch, fire,
}
use resistance_network.Toasts.Limit.{has-append}

-- What is queued, then and later.
has-add_to_remove_queue : (id : Text) (ks : List Text) → has id (add_to_remove_queue id ks) ≡ true
unfolding add_to_remove_queue
has-add_to_remove_queue id ks = elim (Bool-cases (has id ks)) [
  | inl old ↦ rw old old
  | inr new ↦ rw new (ground (arith, has-append id id ks, text_eq_refl id))
]

stays_queued :
    (id k : Text) (ks : List Text) → has id ks ≡ true → has id (add_to_remove_queue k ks) ≡ true
unfolding add_to_remove_queue
stays_queued id k ks h = elim (Bool-cases (has k ks)) [
  | inl old ↦ rw old h
  | inr new ↦ rw new (ground (arith, has-append id k ks))
]

queued_again : (id : Text) (ks : List Text) → has id ks ≡ true → add_to_remove_queue id ks ≡ ks
unfolding add_to_remove_queue
queued_again id ks h = rw h

has-delete_self : (id : Text) (ks : List Text) → has id (delete id ks) ≡ false
has-delete_self id [] = refl
has-delete_self id (k ∷ ks) = ground (arith, has-delete_self id ks)

module _ {ℓ} {A : Type ℓ} where
  abbrev IsQueued : List Text → Toast A → Type 0
  IsQueued ks t = has t.id ks ≡ true

  stays_queued_all :
      (id : Text) (ts : List (Toast A)) (ks : List Text)
      → has id ks ≡ true
      → has id (queue_all ts ks) ≡ true
  unfolding queue_all
  stays_queued_all id [] ks h = h
  stays_queued_all id (t ∷ ts) ks h = stays_queued_all id ts _ (stays_queued id t.id ks h)

  queue_all-IsQueued : (ts : List (Toast A)) (ks : List Text) → All (IsQueued (queue_all ts ks)) ts
  unfolding queue_all
  queue_all-IsQueued [] ks = tt
  queue_all-IsQueued (t ∷ ts) ks =
      (stays_queued_all t.id ts _ (has-add_to_remove_queue t.id ks), queue_all-IsQueued ts _)

  queue_all_again :
      (ts : List (Toast A)) (ks : List Text) → All (IsQueued ks) ts → queue_all ts ks ≡ ks
  unfolding queue_all
  queue_all_again [] ks h = refl
  queue_all_again (t ∷ ts) ks h = rw (queued_again t.id ks h.0) (queue_all_again ts ks h.1)

  -- Closing keeps the ids.
  close_dismissed-IsQueued :
      (id : Option Text) (ks : List Text) (ts : List (Toast A))
      → All (IsQueued ks) ts
      → All (IsQueued ks) (close_dismissed id ts)
  unfolding close_dismissed
  close_dismissed-IsQueued none ks [] h = tt
  close_dismissed-IsQueued none ks (t ∷ ts) h = (h.0, close_dismissed-IsQueued none ks ts h.1)
  close_dismissed-IsQueued (some id) ks [] h = tt
  close_dismissed-IsQueued (some id) ks (t ∷ ts) h = elim (Bool-cases (text_eq t.id id)) [
    | inl here ↦ rw here (h.0, close_dismissed-IsQueued (some id) ks ts h.1)
    | inr other ↦ rw other (h.0, close_dismissed-IsQueued (some id) ks ts h.1)
  ]

  close_twice :
      (id : Option Text) (ts : List (Toast A))
      → close_dismissed id (close_dismissed id ts) ≡ close_dismissed id ts
  unfolding close_dismissed
  close_twice none [] = refl
  close_twice none (t ∷ ts) = ap (λ r. close t ∷ r) (close_twice none ts)
  close_twice (some id) [] = refl
  close_twice (some id) (t ∷ ts) = elim (Bool-cases (text_eq t.id id)) [
    | inl here ↦ rw (here, here) (ap (λ r. close t ∷ r) (close_twice (some id) ts))
    | inr other ↦ rw (other, other) (ap (λ r. t ∷ r) (close_twice (some id) ts))
  ]

  queue_twice :
      (id : Option Text) (ts : List (Toast A)) (ks : List Text)
      → queue_dismissed id (close_dismissed id ts) (queue_dismissed id ts ks)
        ≡ queue_dismissed id ts ks
  unfolding queue_dismissed
  queue_twice none ts ks =
      queue_all_again _ _ (close_dismissed-IsQueued none _ ts (queue_all-IsQueued ts ks))
  queue_twice (some []) ts ks =
      queue_all_again _ _ (close_dismissed-IsQueued (some []) _ ts (queue_all-IsQueued ts ks))
  queue_twice (some (c ∷ id)) ts ks = queued_again (c ∷ id) _ (has-add_to_remove_queue (c ∷ id) ks)

  -- To dismiss a toast, or all of them, a second time changes nothing: no toast, and no timer, which is
  -- neither started again nor started twice.
  reducer-reducer :
      (id : Option Text) (s : Store A)
      → reducer (dismiss_toast id) (reducer (dismiss_toast id) s) ≡ reducer (dismiss_toast id) s
  unfolding reducer
  reducer-reducer id s =
      ap₂ (λ (ks : List Text) (ts : List (Toast A)). record s { timeouts = ks; toasts = ts })
        (queue_twice id s.toasts s.timeouts) (close_twice id s.toasts)

  others_kept :
      (id : Text) (ts : List (Toast A))
      → keep (λ t. not (text_eq t.id id)) (close_dismissed (some id) ts)
        ≡ keep (λ t. not (text_eq t.id id)) ts
  unfolding close_dismissed
  others_kept id [] = refl
  others_kept id (t ∷ ts) = elim (Bool-cases (text_eq t.id id)) [
    | inl here ↦ rw (here, here) (others_kept id ts)
    | inr other ↦ rw (other, other) (ap (λ r. t ∷ r) (others_kept id ts))
  ]

  -- After a toast was dismissed by an id that is not empty, its timer is set; when the timer fires, the
  -- toasts of other ids are left as they were before, those of the id are gone, and so is the timer.
  fire-dismiss :
      (c : ℕ) (id : Text) (s : Store A)
      → (has (c ∷ id) (dispatch (dismiss_toast (some (c ∷ id))) s).timeouts ≡ true)
        × ((fire (c ∷ id) (dispatch (dismiss_toast (some (c ∷ id))) s)).toasts
            ≡ keep (λ t. not (text_eq t.id (c ∷ id))) s.toasts)
        × (has (c ∷ id) (fire (c ∷ id) (dispatch (dismiss_toast (some (c ∷ id))) s)).timeouts
            ≡ false)
  unfolding dispatch fire reducer queue_dismissed
  fire-dismiss c id s = (
    has-add_to_remove_queue (c ∷ id) s.timeouts,
    others_kept (c ∷ id) s.toasts,
    has-delete_self (c ∷ id) (add_to_remove_queue (c ∷ id) s.timeouts),
  )
