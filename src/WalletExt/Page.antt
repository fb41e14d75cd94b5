-- ===== src/WalletExt/Page.antt =====
-- rstn-wallet/inpage.js and rstn-wallet/content-script.js: the requests of a page on their way to the
-- service worker and back. Its listeners and its other scripts are left out.
pub mod Promises
pub mod Outcomes
pub mod Forwarding
use resistance_network.Common.{
  ℕ, ◌+◌, Bool, true, false, not, ◌&&◌, ◌||◌, ◌==◌, List, [], ◌∷◌, ◌++◌, Text, codes, text_eq, keep,
  if◌then◌else◌, Option, none, some,
}
use resistance_network.Json.{Json, str}

-- An object, by its properties in their order.
abbrev pub Properties : Type 0
Properties = List (Text × Json)

-- What a page posts to itself for the content script.
pub record Posted : Type 0 where
  pub source : Text
  pub id : ℕ
  pub kind : Text
  pub payload : Properties

-- An answer of the service worker; `error` is a text of it, if it has one.
pub record Response : Type 0 where
  pub error : Option Text
  pub body : Properties

pub data Outcome : Type 0 where
  resolved : Response → Outcome
  rejected : Text → Outcome

-- `PENDING` by its keys, the timers that run, by the request, `nextId`, and what was posted.
pub record Page : Type 0 where
  pub pending : List ℕ
  pub timers : List ℕ
  pub next_id : ℕ
  pub posted : List Posted

unfoldable pub loaded : Page
loaded = record { pending = []; timers = []; next_id = 0; posted = [] }

abbrev pub has : ℕ → List ℕ → Bool
has id [] = false
has id (k ∷ ks) = k == id || has id ks

abbrev pub delete : ℕ → List ℕ → List ℕ
delete id ks = keep (λ k. not (k == id)) ks

-- The promises that are settled, by their requests.
abbrev pub Settled : Type 0
Settled = List (ℕ × Outcome)

-- `sendRequest`
unfoldable pub send_request : Text → Properties → Page → Page × Settled
send_request kind payload s = (
  record {
    next_id = s.next_id + 1;
    timers = s.timers ++ s.next_id ∷ [];
    pending = s.pending ++ s.next_id ∷ [];
    posted =
        s.posted
        ++ record { source = codes "rstn-dapp"; id = s.next_id; kind = kind; payload = payload }
          ∷ [];
  },
  [],
)

-- `if (response.error)`
abbrev pub outcome_as : Option Text → Response → Outcome
outcome_as none r = resolved r
outcome_as (some []) r = resolved r
outcome_as (some (c ∷ m)) r = rejected (c ∷ m)

-- Behind the deletion: without a response, `response.error` throws, and nothing is settled.
unfoldable pub answer : ℕ → Option Response → Page → Page × Settled
answer id none s = (record s { pending = delete id s.pending }, [])
answer id (some r) s = (
  record s { pending = delete id s.pending; timers = delete id s.timers },
  (id, outcome_as r.error r) ∷ [],
)

-- The listener: whether the message comes from the page's own window, its source, and the rest.
unfoldable pub receive : Bool → Text → ℕ → Option Response → Page → Page × Settled
receive own source id response s =
    if own && text_eq source (codes "rstn-wallet") && has id s.pending
    then answer id response s
    else (s, [])

-- The timer of a request, 60 seconds behind it; a timer that was cleared does not fire.
unfoldable pub expire : ℕ → Page → Page × Settled
expire id s =
    if has id s.timers && has id s.pending
    then (
      record s { pending = delete id s.pending; timers = delete id s.timers },
      (id, rejected (codes "Resistance wallet request timed out")) ∷ [],
    )
    else (record s { timers = delete id s.timers }, [])

pub data Event : Type 0 where
  requested : Text → Properties → Event
  received : (own : Bool) (source : Text) (id : ℕ) (response : Option Response) → Event
  expired : ℕ → Event

unfoldable pub react : Event → Page → Page × Settled
react (requested kind payload) s = send_request kind payload s
react (received own source id response) s = receive own source id response s
react (expired id) s = expire id s

-- Events one behind the other, with what they settle.
unfoldable pub run : List Event → Page → Page × Settled
run [] s = (s, [])
run (e ∷ es) s = let (s', now) = react e s in let (s'', later) = run es s' in (s'', now ++ later)

-- A property that is set: at its place if it is there, else behind the others.
unfoldable pub set_property : Text → Json → Properties → Properties
set_property k v [] = (k, v) ∷ []
set_property k v ((j, w) ∷ r) = if text_eq j k then (k, v) ∷ r else (j, w) ∷ set_property k v r

-- `{ ...base, ...payload }`
unfoldable pub spread : Properties → Properties → Properties
spread [] base = base
spread ((k, v) ∷ payload) base = spread payload (set_property k v base)

-- The content script: what it sends to the service worker for a message of the page.
unfoldable pub forward : Bool → Posted → Option Properties
forward own m =
    if own && text_eq m.source (codes "rstn-dapp")
    then some (spread m.payload ((codes "type", str m.kind) ∷ []))
    else none
