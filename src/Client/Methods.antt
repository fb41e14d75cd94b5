-- ===== src/Client/Methods.antt =====
-- src/lib/rstn-client.ts: the methods of `RstnClient`, each one call of `rpcCall`. A limit that the
-- caller leaves out is the default of the source, which the caller of the model writes.
use resistance_network.Common.{Text, codes, [], ◌∷◌, Result}
use resistance_network.Json.{Json, Decimal, num, str, Request, Reply}
use resistance_network.Client.{Client, rpc_call}

module _ {ℓ} {A : Type ℓ} (net : Request → Reply A) where
  unfoldable pub get_network_stats : Client → Client × Result A
  get_network_stats c = rpc_call net (codes "rstn_getNetworkStats") [] c

  unfoldable pub get_health : Client → Client × Result A
  get_health c = rpc_call net (codes "rstn_health") [] c

  unfoldable pub get_peers : Client → Client × Result A
  get_peers c = rpc_call net (codes "rstn_getPeers") [] c

  unfoldable pub get_shards : Client → Client × Result A
  get_shards c = rpc_call net (codes "rstn_getShards") [] c

  unfoldable pub get_latest_blocks : Decimal → Client → Client × Result A
  get_latest_blocks limit c = rpc_call net (codes "rstn_getLatestBlocks") (num limit ∷ []) c

  unfoldable pub get_block_by_height : Decimal → Client → Client × Result A
  get_block_by_height height c = rpc_call net (codes "rstn_getBlockByHeight") (num height ∷ []) c

  unfoldable pub get_block_by_hash : Text → Client → Client × Result A
  get_block_by_hash hash c = rpc_call net (codes "rstn_getBlockByHash") (str hash ∷ []) c

  unfoldable pub get_latest_transactions : Decimal → Client → Client × Result A
  get_latest_transactions limit c =
      rpc_call net (codes "rstn_getLatestTransactions") (num limit ∷ []) c

  unfoldable pub get_transaction_by_hash : Text → Client → Client × Result A
  get_transaction_by_hash hash c =
      rpc_call net (codes "rstn_getTransactionByHash") (str hash ∷ []) c

  unfoldable pub get_transactions_by_address : Text → Decimal → Client → Client × Result A
  get_transactions_by_address address limit c =
      rpc_call net (codes "rstn_getTransactionsByAddress") (str address ∷ num limit ∷ []) c

  unfoldable pub get_pending_transactions : Decimal → Client → Client × Result A
  get_pending_transactions limit c =
      rpc_call net (codes "rstn_getPendingTransactions") (num limit ∷ []) c

  unfoldable pub get_top_validators : Decimal → Client → Client × Result A
  get_top_validators limit c = rpc_call net (codes "rstn_getTopValidators") (num limit ∷ []) c

  unfoldable pub get_validator : Text → Client → Client × Result A
  get_validator address c = rpc_call net (codes "rstn_getValidator") (str address ∷ []) c

  unfoldable pub get_staking_info : Text → Client → Client × Result A
  get_staking_info address c = rpc_call net (codes "rstn_getStakingInfo") (str address ∷ []) c

  unfoldable pub get_balance : Text → Client → Client × Result A
  get_balance address c = rpc_call net (codes "rstn_getBalance") (str address ∷ []) c

  unfoldable pub get_nonce : Text → Client → Client × Result A
  get_nonce address c = rpc_call net (codes "rstn_getNonce") (str address ∷ []) c

  unfoldable pub get_proposals : Client → Client × Result A
  get_proposals c = rpc_call net (codes "rstn_getProposals") [] c

  unfoldable pub get_proposal : Text → Client → Client × Result A
  get_proposal id c = rpc_call net (codes "rstn_getProposal") (str id ∷ []) c

  unfoldable pub faucet_claim : Text → Client → Client × Result A
  faucet_claim address c = rpc_call net (codes "rstn_faucetClaim") (str address ∷ []) c

  unfoldable pub send_transaction : Json → Client → Client × Result A
  send_transaction signed_tx c = rpc_call net (codes "rstn_sendTransaction") (signed_tx ∷ []) c
