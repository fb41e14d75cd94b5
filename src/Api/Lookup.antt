-- ===== src/Api/Lookup.antt =====
-- The look-ups of blocks and transactions against the lists, where no node is asked.
use resistance_network.Common.{
  ◌≡◌, refl, ap, ◌∙◌, false, List, [], ◌∷◌, codes, All, Option, none, some,
}
use resistance_network.Json.{Decimal, Request, Reply}
use resistance_network.Api.{State}
use resistance_network.Api.Mode.{read_off}
use resistance_network.Api.Data.{Block, Transaction}
use resistance_network.Api.Mock.Blocks.{mock_blocks}
use resistance_network.Api.Mock.Transactions.{mock_txs}
use resistance_network.Api.Reads.{
  find_block, find_transaction, get_block_by_height, get_transaction_by_hash, get_latest_blocks,
  get_latest_transactions,
}

All-map :
    {A : Type 0} {P Q : A → Type 0} (f : (x : A) → P x → Q x) (xs : List A) → All P xs → All Q xs
All-map f [] h = tt
All-map f (x ∷ xs) h = (f x h.0, All-map f xs h.1)

listed_blocks : All (λ b. find_block b.height mock_blocks ≡ some b) mock_blocks
listed_blocks = (refl, (refl, (refl, (refl, (refl, (refl, (refl, (refl, (refl, (refl, tt))))))))))

listed_transactions : All (λ t. find_transaction (codes t.hash) mock_txs ≡ some t) mock_txs
listed_transactions = (
  refl,
  (refl, (refl, (refl, (refl, (refl, (refl, (refl, (refl, (refl, (refl, (refl, tt))))))))))),
)

-- With the mode off, each block that `getLatestBlocks` lists is the one that `getBlockByHeight` returns
-- for its height, and no look-up or listing changes the state.
get_block_by_height-get_latest_blocks :
    (net : Request → Reply (List Block)) (net' : Request → Reply (Option Block)) (limit : Decimal)
    (s : State)
    → s.rpc_mode ≡ false
    → ((get_latest_blocks net limit s).0 ≡ s)
      × All
          (λ b. get_block_by_height net' b.height s ≡ (s, some b))
          (get_latest_blocks net limit s).1
unfolding get_latest_blocks get_block_by_height
get_block_by_height-get_latest_blocks net net' limit s h =
    rw (read_off net _ _ mock_blocks mock_blocks s h) (
      refl,
      All-map {P = λ b. find_block b.height mock_blocks ≡ some b}
          {Q = λ b. get_block_by_height net' b.height s ≡ (s, some b)}
          (λ b found.
            read_off net' _ _ none (find_block b.height mock_blocks) s h ∙ ap (λ o. (s, o)) found)
          mock_blocks listed_blocks,
    )

-- With the mode off, each transaction that `getLatestTransactions` lists is the one that
-- `getTransactionByHash` returns for its hash, and no look-up or listing changes the state.
get_transaction_by_hash-get_latest_transactions :
    (net : Request → Reply (List Transaction)) (net' : Request → Reply (Option Transaction))
    (limit : Decimal) (s : State)
    → s.rpc_mode ≡ false
    → ((get_latest_transactions net limit s).0 ≡ s)
      × All
          (λ t. get_transaction_by_hash net' (codes t.hash) s ≡ (s, some t))
          (get_latest_transactions net limit s).1
unfolding get_latest_transactions get_transaction_by_hash
get_transaction_by_hash-get_latest_transactions net net' limit s h =
    rw (read_off net _ _ mock_txs mock_txs s h) (
      refl,
      All-map {P = λ t. find_transaction (codes t.hash) mock_txs ≡ some t}
          {Q = λ t. get_transaction_by_hash net' (codes t.hash) s ≡ (s, some t)}
          (λ t found.
            read_off net' _ _ none (find_transaction (codes t.hash) mock_txs) s h
            ∙ ap (λ o. (s, o)) found)
          mock_txs listed_transactions,
    )
