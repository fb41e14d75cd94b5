-- ===== src/Toasts.antt =====
-- src/hooks/use-toast.ts: the store of toasts behind `useToast`, and its timers.
pub mod Limit
pub mod Dismissal
use resistance_network.Common.{
  ℕ, ◌+◌, ◌%◌, ◌≡◌, Bool, true, false, not, ◌||◌, List, [], ◌∷◌, ◌++◌, map, Text, text_eq, take,
  keep, ◌==◌, if◌then◌else◌, Option, none, some,
}
use resistance_network.Common.Int.{pos}
use resistance_network.TxHelpers.BigInt.{print_bigint}

-- A toast; the properties that the store does not look at are of the type `A`.
pub record Toast {ℓ} (A : Type ℓ) : Type ℓ where
  pub id : Text
  pub open_flag : Bool
  pub content : A

-- A partial toast: the `open` that it sets, if it does, and what it makes of the other properties.
pub record Patch {ℓ} (A : Type ℓ) : Type ℓ where
  pub id : Text
  pub open_flag : Option Bool
  pub change : A → A

pub data Action {ℓ} (A : Type ℓ) : Type ℓ where
  add_toast : Toast A → Action A
  update_toast : Patch A → Action A
  dismiss_toast : Option Text → Action A
  remove_toast : Option Text → Action A

-- The variables of the module: `count`, the keys of `toastTimeouts`, `memoryState` and `listeners`, by
-- number. `calls` records what the listeners were called with.
pub record Store {ℓ} (A : Type ℓ) : Type ℓ where
  pub count : ℕ
  pub timeouts : List Text
  pub toasts : List (Toast A)
  pub listeners : List ℕ
  pub calls : List (ℕ × List (Toast A))

abbrev pub toast_limit : ℕ
toast_limit = 1

-- `toastTimeouts.has` and, on keys that are there once each, `toastTimeouts.delete`
abbrev pub has : Text → List Text → Bool
has id [] = false
has id (k ∷ ks) = text_eq k id || has id ks

abbrev pub delete : Text → List Text → List Text
delete id ks = keep (λ k. not (text_eq k id)) ks

-- `addToRemoveQueue`; the timer itself is `fire`.
unfoldable pub add_to_remove_queue : Text → List Text → List Text
add_to_remove_queue id ks = if has id ks then ks else ks ++ id ∷ []

abbrev pub open_or : Option Bool → Bool → Bool
open_or none b = b
open_or (some b) old = b

-- `genId`, modulo `Number.MAX_SAFE_INTEGER`
abbrev pub next_count : ℕ → ℕ
next_count n = (n + 1) % 9007199254740991

-- `listeners.splice(index, 1)`, at the first index, if there is one
abbrev pub drop_first : ℕ → List ℕ → List ℕ
drop_first l [] = []
drop_first l (x ∷ xs) = if x == l then xs else x ∷ drop_first l xs

module _ {ℓ} {A : Type ℓ} where
  -- `{ ...t, ...action.toast }`
  abbrev pub apply_patch : Patch A → Toast A → Toast A
  apply_patch p t =
      if text_eq t.id p.id
      then record {
        id = p.id;
        open_flag = open_or p.open_flag t.open_flag;
        content = p.change t.content;
      }
      else t

  abbrev pub close : Toast A → Toast A
  close t = record t { open_flag = false }

  -- `state.toasts.forEach((toast) => addToRemoveQueue(toast.id))`
  unfoldable pub queue_all : List (Toast A) → List Text → List Text
  queue_all [] ks = ks
  queue_all (t ∷ ts) ks = queue_all ts (add_to_remove_queue t.id ks)

  -- The queue of `DISMISS_TOAST`: an empty id counts as none.
  unfoldable pub queue_dismissed : Option Text → List (Toast A) → List Text → List Text
  queue_dismissed none ts ks = queue_all ts ks
  queue_dismissed (some []) ts ks = queue_all ts ks
  queue_dismissed (some (c ∷ id)) ts ks = add_to_remove_queue (c ∷ id) ks

  -- Its toasts: here an empty id is an id.
  unfoldable pub close_dismissed : Option Text → List (Toast A) → List (Toast A)
  close_dismissed none ts = map close ts
  close_dismissed (some id) ts = map (λ t. if text_eq t.id id then close t else t) ts

  -- `reducer`, with its effect on the queue.
  unfoldable pub reducer : Action A → Store A → Store A
  reducer (add_toast t) s = record s { toasts = take toast_limit (t ∷ s.toasts) }
  reducer (update_toast p) s = record s { toasts = map (apply_patch p) s.toasts }
  reducer (dismiss_toast id) s = record s {
    timeouts = queue_dismissed id s.toasts s.timeouts;
    toasts = close_dismissed id s.toasts;
  }
  reducer (remove_toast none) s = record s { toasts = [] }
  reducer (remove_toast (some id)) s = record s {
    toasts = keep (λ t. not (text_eq t.id id)) s.toasts;
  }

  abbrev pub notify : Store A → Store A
  notify s = record s { calls = s.calls ++ map (λ l. (l, s.toasts)) s.listeners }

  unfoldable pub dispatch : Action A → Store A → Store A
  dispatch a s = notify (reducer a s)

  -- `toast`: the id and the store.
  unfoldable pub toast : A → Store A → Text × Store A
  toast content s =
      let n = next_count s.count in
      let id = print_bigint (pos n) in
      (
        id,
        dispatch (add_toast (record { id = id; open_flag = true; content = content }))
            (record s { count = n }),
      )

  -- The timer of an id.
  unfoldable pub fire : Text → Store A → Store A
  fire id s = dispatch (remove_toast (some id)) (record s { timeouts = delete id s.timeouts })

  -- The effect of `useToast` and its cleanup.
  abbrev pub subscribe : ℕ → Store A → Store A
  subscribe l s = record s { listeners = s.listeners ++ l ∷ [] }

  abbrev pub unsubscribe : ℕ → Store A → Store A
  unsubscribe l s = record s { listeners = drop_first l s.listeners }

  -- What can happen to the store. A timer fires only for an id that is queued.
  pub data Step : Store A → Store A → Type ℓ where
    shown : {s : Store A} (content : A) → Step s (toast content s).1
    dispatched : {s : Store A} (p : Patch A) → Step s (dispatch (update_toast p) s)
    dismissed : {s : Store A} (id : Option Text) → Step s (dispatch (dismiss_toast id) s)
    fired : {s : Store A} (id : Text) → has id s.timeouts ≡ true → Step s (fire id s)
    subscribed : {s : Store A} (l : ℕ) → Step s (subscribe l s)
    unsubscribed : {s : Store A} (l : ℕ) → Step s (unsubscribe l s)

  abbrev pub empty_store : Store A
  empty_store = record { count = 0; timeouts = []; toasts = []; listeners = []; calls = [] }

  pub data Reachable : Store A → Type ℓ where
    start : Reachable empty_store
    step : {s s' : Store A} → Reachable s → Step s s' → Reachable s'
