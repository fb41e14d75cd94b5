-- ===== src/WalletExt/Page/Promises.antt =====
-- The promise of a request is settled once, unless an answer without a response comes.
use resistance_network.Common.{
  ℕ, ◌+◌, ◌≤◌, ◌<◌, ◌≡◌, refl, sym, ap, ◌∙◌, Bool, true, false, ◌&&◌, ◌||◌, ◌==◌, List, [], ◌∷◌,
  ◌++◌, Text, codes, text_eq, if◌then◌else◌, Option, none, some, arith, Bool-cases, inl, inr,
  either_way, ==_refl, ==_iff, and_right,
}
use resistance_network.WalletExt.Page.{
  Properties, Response, Page, has, delete, Settled, send_request, answer, receive, expire, Event,
  requested, received, expired, react,
}

pub has-append_same : (k : ℕ) (ks : List ℕ) → has k (ks ++ k ∷ []) ≡ true
has-append_same k [] = ground (arith, ==_refl k)
has-append_same k (j ∷ ks) = ground (arith, has-append_same k ks)

has-append_other : (k j : ℕ) (ks : List ℕ) → (j == k) ≡ false → has k (ks ++ j ∷ []) ≡ has k ks
has-append_other k j [] h = rw h refl
has-append_other k j (i ∷ ks) h = ap (λ b. i == k || b) (has-append_other k j ks h)

pub has-delete_same : (k : ℕ) (ks : List ℕ) → has k (delete k ks) ≡ false
has-delete_same k [] = refl
has-delete_same k (j ∷ ks) = elim (Bool-cases (j == k)) [
  | inl e ↦ rw e (has-delete_same k ks)
  | inr e ↦ rw (e, e) (has-delete_same k ks)
]

has-delete_other : (k j : ℕ) (ks : List ℕ) → (j == k) ≡ false → has k (delete j ks) ≡ has k ks
has-delete_other k j [] h = refl
has-delete_other k j (i ∷ ks) h = elim (Bool-cases (i == j)) [
  | inl e ↦
      let apart : (i == k) ≡ false = ap (λ (n : ℕ). n == k) ((==_iff i j).0 e) ∙ h in
      rw (e, apart) (has-delete_other k j ks h)
  | inr e ↦ rw e (ap (λ b. i == k || b) (has-delete_other k j ks h))
]

-- How often the promise of a request is settled.
abbrev pub count : ℕ → Settled → ℕ
count k [] = 0
count k ((id, o) ∷ out) = (if id == k then 1 else 0) + count k out

pub count-append : (k : ℕ) (xs ys : Settled) → count k (xs ++ ys) ≡ count k xs + count k ys
count-append k [] ys = omega arith
count-append k ((id, o) ∷ xs) ys = omega (arith, count-append k xs ys)

abbrev pub one_if : Bool → ℕ
one_if b = if b then 1 else 0

abbrev pub waiting : ℕ → Page → ℕ
waiting k s = one_if (has k s.pending)

-- An answer without a response to this request.
abbrev pub is_empty_answer : ℕ → Event → Bool
is_empty_answer k (received own source id none) = id == k
is_empty_answer k (received own source id (some r)) = false
is_empty_answer k (requested kind payload) = false
is_empty_answer k (expired id) = false

-- A request that waits has its timer.
abbrev pub HasTimer : ℕ → Page → Type 0
HasTimer k s = has k s.pending ≡ true → has k s.timers ≡ true

-- What an event does to a request: it settles what no longer waits, but for an answer without a
-- response, which settles less.
abbrev pub Conserves : ℕ → Bool → Page → Page × Settled → Type 0
Conserves k empty s (s', out) =
    (count k out + waiting k s' ≤ waiting k s)
    × (empty ≡ false → count k out + waiting k s' ≡ waiting k s)
    × (s.next_id ≤ s'.next_id)
    × (HasTimer k s → HasTimer k s')

unchanged : (k : ℕ) (empty : Bool) (s : Page) → Conserves k empty s (s, [])
unchanged k empty s = (omega arith, λ _. omega arith, omega arith, λ t. t)

-- Deleting a request that waits.
deleted :
    (k id : ℕ) (ks : List ℕ)
    → has id ks ≡ true
    → one_if (id == k) + one_if (has k (delete id ks)) ≡ one_if (has k ks)
deleted k id ks h = elim (Bool-cases (id == k)) [
  | inl e ↦
      let same : id ≡ k = (==_iff id k).0 e in
      let gone : has k (delete id ks) ≡ false =
        ap (λ (n : ℕ). has k (delete n ks)) same ∙ has-delete_same k ks in
      let there : has k ks ≡ true = ap (λ (n : ℕ). has n ks) (sym same) ∙ h in
      rw (e, gone, there) (omega arith)
  | inr e ↦ rw (e, has-delete_other k id ks e) (omega arith)
]

-- The timers after a deletion from both.
still_timed :
    (k id : ℕ) (ks ts : List ℕ)
    → (has k ks ≡ true → has k ts ≡ true)
    → has k (delete id ks) ≡ true
    → has k (delete id ts) ≡ true
still_timed k id ks ts t h = elim (Bool-cases (id == k)) [
  | inl e ↦
      let gone : has k (delete id ks) ≡ false =
        ap (λ (n : ℕ). has k (delete n ks)) ((==_iff id k).0 e) ∙ has-delete_same k ks in
      cc
  | inr e ↦ has-delete_other k id ts e ∙ t (sym (has-delete_other k id ks e) ∙ h)
]

-- So too where only the timers lose one that does not wait.
untimed :
    (k id : ℕ) (ks ts : List ℕ)
    → (has id ts && has id ks) ≡ false
    → (has k ks ≡ true → has k ts ≡ true)
    → has k ks ≡ true
    → has k (delete id ts) ≡ true
untimed k id ks ts off t h = elim (Bool-cases (id == k)) [
  | inl e ↦
      let same : id ≡ k = (==_iff id k).0 e in
      let off' : (has k ts && has k ks) ≡ false =
        ap (λ (n : ℕ). has n ts && has n ks) (sym same) ∙ off in
      let timed = t h in ground arith
  | inr e ↦ has-delete_other k id ts e ∙ t h
]

send_request-Conserves :
    (k : ℕ) (kind : Text) (payload : Properties) (s : Page)
    → k < s.next_id
    → Conserves k false s (send_request kind payload s)
unfolding send_request
send_request-Conserves k kind payload s h =
    let apart : (s.next_id == k) ≡ false = ground arith in
    let same = has-append_other k s.next_id s.pending apart in
    (
      rw same (omega arith),
      λ _. rw same (omega arith),
      omega arith,
      λ t e. has-append_other k s.next_id s.timers apart ∙ t (sym same ∙ e),
    )

answer-Conserves :
    (k id : ℕ) (own : Bool) (source : Text) (response : Option Response) (s : Page)
    → has id s.pending ≡ true
    → Conserves k (is_empty_answer k (received own source id response)) s (answer id response s)
unfolding answer
answer-Conserves k id own source none s h =
    let part = deleted k id s.pending h in
    (omega (arith, part), λ e. omega (arith, part, ap one_if e), omega arith, λ t e. t (kept e))
  where
    kept : has k (delete id s.pending) ≡ true → has k s.pending ≡ true
    kept e = elim (Bool-cases (id == k)) [
      | inl same ↦ ap (λ (n : ℕ). has n s.pending) (sym ((==_iff id k).0 same)) ∙ h
      | inr other ↦ sym (has-delete_other k id s.pending other) ∙ e
    ]
answer-Conserves k id own source (some r) s h =
    let part = deleted k id s.pending h in
    (
      omega (arith, part),
      λ _. omega (arith, part),
      omega arith,
      λ t e. still_timed k id s.pending s.timers t e,
    )

expire-Conserves : (k id : ℕ) (s : Page) → Conserves k false s (expire id s)
unfolding expire
expire-Conserves k id s =
    either_way (Conserves k false s) (has id s.timers && has id s.pending) _ _
      (λ h.
        let part = deleted k id s.pending (and_right (has id s.timers) (has id s.pending) h) in
        (
          omega (arith, part),
          λ _. omega (arith, part),
          omega arith,
          λ t e. still_timed k id s.pending s.timers t e,
        ))
      (λ h.
        (omega arith, λ _. omega arith, omega arith, λ t e. untimed k id s.pending s.timers h t e))

pub react-Conserves :
    (k : ℕ) (e : Event) (s : Page) → k < s.next_id → Conserves k (is_empty_answer k e) s (react e s)
unfolding react receive
react-Conserves k (requested kind payload) s h = send_request-Conserves k kind payload s h
react-Conserves k (received own source id response) s h =
    either_way (Conserves k (is_empty_answer k (received own source id response)) s)
      (own && text_eq source (codes "rstn-wallet") && has id s.pending) _ _
      (λ e.
        answer-Conserves k id own source response s
          (and_right (own && text_eq source (codes "rstn-wallet")) (has id s.pending) e))
      (λ e. unchanged k _ s)
react-Conserves k (expired id) s h = expire-Conserves k id s
