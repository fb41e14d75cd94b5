-- ===== src/WalletExt/History/Entries.antt =====
-- The entries of the history, and of the list that is shown.
use resistance_network.Common.{
  ℕ, zero, suc, ◌≤◌, ◌≡◌, refl, Bool, false, ◌&&◌, List, [], ◌∷◌, map, keep, take, length, Text,
  text_eq, text_eq_sound, All, All-append, arith, either_way,
}
use resistance_network.WalletExt.Mnemonic.{non_empty}
use resistance_network.WalletExt.History.{
  Answer, rpc_call, or_else, Tx, has_hash, record_tx, OnchainTx, onchain_tx, tx_key, seen_key,
  merge_new, merge_txs,
}

length-take : {A : Type 0} (n : ℕ) (xs : List A) → length (take n xs) ≤ n
length-take zero xs = omega arith
length-take (suc n) [] = omega arith
length-take (suc n) (x ∷ xs) = omega (arith, length-take n xs)

-- No hash stands twice; an empty one is none.
abbrev pub HasDistinctHashes : List Tx → Type 0
HasDistinctHashes [] = Unit {0}
HasDistinctHashes (t ∷ ts) =
    ((non_empty t.hash && has_hash t.hash ts) ≡ false) × HasDistinctHashes ts

has_hash-take :
    (n : ℕ) (h : Text) (ts : List Tx) → has_hash h ts ≡ false → has_hash h (take n ts) ≡ false
has_hash-take zero h ts k = refl
has_hash-take (suc n) h [] k = refl
has_hash-take (suc n) h (t ∷ ts) k = ground (arith, has_hash-take n h ts)

and_false : (b c d : Bool) → (c ≡ false → d ≡ false) → (b && c) ≡ false → (b && d) ≡ false
and_false b c d f h = ground arith

take-HasDistinctHashes :
    (n : ℕ) (ts : List Tx) → HasDistinctHashes ts → HasDistinctHashes (take n ts)
take-HasDistinctHashes zero ts h = tt
take-HasDistinctHashes (suc n) [] h = tt
take-HasDistinctHashes (suc n) (t ∷ ts) h = (
  and_false (non_empty t.hash) (has_hash t.hash ts) _ (has_hash-take n t.hash ts) h.0,
  take-HasDistinctHashes n ts h.1,
)

-- A history that is kept.
pub record IsHistory (ts : List Tx) : Type 0 where
  pub distinct : HasDistinctHashes ts
  pub bounded : length ts ≤ 200

-- Recording a transaction keeps the history at most 200 entries long, with no hash in it twice.
record_tx-IsHistory :
    (tx : Tx) (history : List Tx) → IsHistory history → IsHistory (record_tx tx history)
unfolding record_tx
record_tx-IsHistory tx history s =
    either_way IsHistory (non_empty tx.hash && has_hash tx.hash history) _ _ (λ _. s)
      λ h. record {
        distinct = take-HasDistinctHashes 200 (tx ∷ history) (h, s.distinct);
        bounded = length-take 200 (tx ∷ history);
      }

module _ (to_lower_case : Text → Text) where
  -- No key stands twice, and none is one that was seen.
  abbrev pub HasNewKeys : List Text → List Tx → Type 0
  HasNewKeys seen [] = Unit {0}
  HasNewKeys seen (t ∷ ts) =
      (seen_key to_lower_case (tx_key to_lower_case t) seen ≡ false)
      × HasNewKeys (tx_key to_lower_case t ∷ seen) ts

  merge_new-HasNewKeys :
      (seen : List Text) (ts : List Tx) → HasNewKeys seen (merge_new to_lower_case seen ts)
  unfolding merge_new
  merge_new-HasNewKeys seen [] = tt
  merge_new-HasNewKeys seen (t ∷ ts) =
      either_way (HasNewKeys seen) (seen_key to_lower_case (tx_key to_lower_case t) seen) _ _
        (λ _. merge_new-HasNewKeys seen ts)
        λ h. (h, merge_new-HasNewKeys (tx_key to_lower_case t ∷ seen) ts)

  take-HasNewKeys :
      (n : ℕ) (seen : List Text) (ts : List Tx) → HasNewKeys seen ts → HasNewKeys seen (take n ts)
  take-HasNewKeys zero seen ts h = tt
  take-HasNewKeys (suc n) seen [] h = tt
  take-HasNewKeys (suc n) seen (t ∷ ts) h = (h.0, take-HasNewKeys n _ ts h.1)

  keep-address :
      (address : Text) (ts : List Tx)
      → All (λ t. t.address ≡ address) (keep (λ t. text_eq t.address address) ts)
  keep-address address [] = tt
  keep-address address (t ∷ ts) =
      either_way (All (λ u. u.address ≡ address)) (text_eq t.address address) _ _
        (λ h. (text_eq_sound t.address address h, keep-address address ts))
        (λ _. keep-address address ts)

  onchain-address :
      (now : ℕ) (address : Text) (ts : List OnchainTx)
      → All (λ t. t.address ≡ address) (map (onchain_tx to_lower_case now address) ts)
  unfolding onchain_tx
  onchain-address now address [] = tt
  onchain-address now address (t ∷ ts) = (refl, onchain-address now address ts)

  merge_new-address :
      (address : Text) (seen : List Text) (ts : List Tx)
      → All (λ t. t.address ≡ address) ts
      → All (λ t. t.address ≡ address) (merge_new to_lower_case seen ts)
  unfolding merge_new
  merge_new-address address seen [] h = tt
  merge_new-address address seen (t ∷ ts) h =
      either_way (All (λ u. u.address ≡ address))
        (seen_key to_lower_case (tx_key to_lower_case t) seen) _ _
        (λ _. merge_new-address address seen ts h.1)
        (λ _. (h.0, merge_new-address address (tx_key to_lower_case t ∷ seen) ts h.1))

  take-address :
      (address : Text) (n : ℕ) (ts : List Tx)
      → All (λ t. t.address ≡ address) ts
      → All (λ t. t.address ≡ address) (take n ts)
  take-address address zero ts h = tt
  take-address address (suc n) [] h = tt
  take-address address (suc n) (t ∷ ts) h = (h.0, take-address address n ts h.1)

  -- The list that an account is shown, of its local history and what the node knows, has at most 50
  -- entries, no two of the same key (the hash; without one, recipient, amount and time), and only
  -- entries of this account.
  merge_txs-HasNewKeys :
      (now : ℕ) (address : Text) (history : List Tx) (a : Answer (List OnchainTx))
      → (length (merge_txs to_lower_case now address history a) ≤ 50)
        × HasNewKeys [] (merge_txs to_lower_case now address history a)
        × All (λ t. t.address ≡ address) (merge_txs to_lower_case now address history a)
  unfolding merge_txs
  merge_txs-HasNewKeys now address history a =
      let ts = or_else (rpc_call a) [] in
      let both =
        All-append (λ t. t.address ≡ address) _ _ (keep-address address history)
          (onchain-address now address ts) in
      (
        length-take 50 _,
        take-HasNewKeys 50 [] _ (merge_new-HasNewKeys [] _),
        take-address address 50 _ (merge_new-address address [] _ both),
      )
