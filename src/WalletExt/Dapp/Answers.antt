-- ===== src/WalletExt/Dapp/Answers.antt =====
-- What the service worker grants, and on which event.
use resistance_network.Common.{
  ◌≡◌, ap, ◌++◌, refl, ◌⊎◌, inl, inr, Bool, true, false, List, [], ◌∷◌, All, All-append, Text,
  codes, text_eq, Option, none, some, either_way,
}
use resistance_network.WalletExt.Platform.{Platform}
use resistance_network.WalletExt.Background.{Wallet, closed}
use resistance_network.WalletExt.Background.Messages.{Message, Moment, handle_message}
use resistance_network.WalletExt.Dapp.{
  DappRequest, DappReply, connected, balance_of, signature, tx_hash, wallet_reply, Pending, Worker,
  origin_of, finish,
}
use resistance_network.WalletExt.Dapp.Events.{
  Event, requested, confirmed, timed_out, told, Output, pending_of, request, settle_found, settle,
  react, run,
}

-- A reply that tells or does something for whoever asks.
abbrev pub is_grant : DappReply → Bool
is_grant (connected _) = true
is_grant (balance_of _ _) = true
is_grant (signature _) = true
is_grant (tx_hash _) = true
is_grant (wallet_reply _) = true
is_grant _ = false

-- The request waits, the user approves it, and this is what it is then answered.
pub record IsApproval (platform : Platform) (url_origin : Text → Option Text) (s : Worker)
    (es : List (Moment × Event)) (tag : Option Text) (reply : DappReply) : Type 0 where
  pub id : Text
  pub tag_at : tag ≡ some id
  pub before : List (Moment × Event)
  pub m : Moment
  pub after : List (Moment × Event)
  pub events_at : es ≡ before ++ (m, confirmed id true) ∷ after
  pub entry : Pending
  pub waits : pending_of id (run platform url_origin before s).0.pending ≡ some entry
  pub answers :
      reply ≡ finish platform m true entry.request (run platform url_origin before s).0.wallet

-- A message of another type is answered at once, and this is the answer to it.
pub record IsTold (platform : Platform) (url_origin : Text → Option Text) (s : Worker)
    (es : List (Moment × Event)) (tag : Option Text) (reply : DappReply) : Type 0 where
  pub untagged : tag ≡ none
  pub before : List (Moment × Event)
  pub m : Moment
  pub message : Message
  pub after : List (Moment × Event)
  pub events_at : es ≡ before ++ (m, told message) ∷ after
  pub answers :
      reply
      ≡ wallet_reply
          (handle_message platform m message (run platform url_origin before s).0.wallet).1

-- A reply is no grant, or its request was waiting and has been approved, or it answers a message of
-- another type.
abbrev pub IsConsented :
    Platform
    → (Text → Option Text)
    → Worker
    → List (Moment × Event)
    → Option Text × DappReply
    → Type 0
IsConsented platform url_origin s es (tag, reply) =
    (is_grant reply ≡ false)
    ⊎ (IsApproval platform url_origin s es tag reply ⊎ IsTold platform url_origin s es tag reply)

All-map :
    {A : Type 0} (P Q : A → Type 0) (xs : List A) → ((x : A) → P x → Q x) → All P xs → All Q xs
All-map P Q [] f h = tt
All-map P Q (x ∷ xs) f h = (f x h.0, All-map P Q xs f h.1)

module _ (platform : Platform) (url_origin : Text → Option Text) where
  rejection :
      (m : Moment) (r : DappRequest) (w : Wallet) → is_grant (finish platform m false r w) ≡ false
  unfolding finish
  rejection m r w = refl

  settle_found-IsConsented :
      (m : Moment) (approved : Bool) (o : Option Pending) (id : Text) (s : Worker)
      (es : List (Moment × Event))
      → pending_of id s.pending ≡ o
      → All
          (IsConsented platform url_origin s ((m, confirmed id approved) ∷ es))
          (settle_found platform url_origin m approved o id s).1
  unfolding run
  settle_found-IsConsented m approved none id s es e = tt
  settle_found-IsConsented m true (some p) id s es e = (
    inr (
        inl (record {
          id = id;
          tag_at = refl;
          before = [];
          m = m;
          after = es;
          events_at = refl;
          entry = p;
          waits = e;
          answers = refl;
        })),
    tt,
  )
  settle_found-IsConsented m false (some p) id s es e = (inl (rejection m p.request s.wallet), tt)

  timed_out-IsConsented :
      (m : Moment) (o : Option Pending) (id : Text) (s : Worker) (es : List (Moment × Event))
      → All
          (IsConsented platform url_origin s es)
          (settle_found platform url_origin m false o id s).1
  timed_out-IsConsented m none id s es = tt
  timed_out-IsConsented m (some p) id s es = (inl (rejection m p.request s.wallet), tt)

  react-IsConsented :
      (m : Moment) (e : Event) (es : List (Moment × Event)) (s : Worker)
      → All (IsConsented platform url_origin s ((m, e) ∷ es)) (react platform url_origin m e s).1
  unfolding react request settle run
  react-IsConsented m (requested sender r) es s =
      let P : Worker × Output → Type 0 =
        λ x. All (IsConsented platform url_origin s ((m, requested sender r) ∷ es)) x.1 in
      either_way P (closed s.wallet) _ _ (λ _. (inl refl, tt))
        λ _.
          either_way P (text_eq (origin_of url_origin sender) (codes "unknown")) _ _
            (λ _. (inl refl, tt)) λ _. tt
  react-IsConsented m (confirmed id approved) es s =
      settle_found-IsConsented m approved (pending_of id s.pending) id s es refl
  react-IsConsented m (timed_out id) es s =
      timed_out-IsConsented m (pending_of id s.pending) id s ((m, timed_out id) ∷ es)
  react-IsConsented m (told message) es s = (
    inr (
        inr (record {
          untagged = refl;
          before = [];
          m = m;
          message = message;
          after = es;
          events_at = refl;
          answers = refl;
        })),
    tt,
  )

  -- What is consented behind an event is consented with it in front.
  weaken :
      (m : Moment) (e : Event) (es : List (Moment × Event)) (s : Worker)
      (o : Option Text × DappReply)
      → IsConsented platform url_origin (react platform url_origin m e s).0 es o
      → IsConsented platform url_origin s ((m, e) ∷ es) o
  unfolding run
  weaken m e es s o (inl refusal) = inl refusal
  weaken m e es s o (inr (inl a)) = inr (
      inl (record {
        id = a.id;
        tag_at = a.tag_at;
        before = (m, e) ∷ a.before;
        m = a.m;
        after = a.after;
        events_at = ap (λ xs. (m, e) ∷ xs) a.events_at;
        entry = a.entry;
        waits = a.waits;
        answers = a.answers;
      }))
  weaken m e es s o (inr (inr a)) = inr (
      inr (record {
        untagged = a.untagged;
        before = (m, e) ∷ a.before;
        m = a.m;
        message = a.message;
        after = a.after;
        events_at = ap (λ xs. (m, e) ∷ xs) a.events_at;
        answers = a.answers;
      }))

  -- Of all that the service worker sends, whatever happens and in whatever order, a reply is a refusal or
  -- a failure; or it goes to a request of a page that was waiting when a decision approved it by its
  -- identifier, and is the answer to this request from the wallet at that time; or it is the answer
  -- to a message of another type from the wallet at that time. Messages of other types need no
  -- approval, and a page can send them as well. Each event is handled to its end before the next.
  pub run-IsConsented :
      (es : List (Moment × Event)) (s : Worker)
      → All (IsConsented platform url_origin s es) (run platform url_origin es s).1
  unfolding run
  run-IsConsented [] s = tt
  run-IsConsented ((m, e) ∷ es) s =
      let here = react platform url_origin m e s in
      All-append (IsConsented platform url_origin s ((m, e) ∷ es)) here.1
        (run platform url_origin es here.0).1 (react-IsConsented m e es s)
        (All-map (IsConsented platform url_origin here.0 es)
          (IsConsented platform url_origin s ((m, e) ∷ es)) _ (weaken m e es s)
          (run-IsConsented es here.0))
