-- ===== src/Api/Testnet.antt =====
-- src/lib/api.ts: `getTestnetNodes`, which asks the four nodes of the local test network.
use resistance_network.Common.{
  ℕ, ◌+◌, Bool, true, false, List, [], ◌∷◌, ◌++◌, Text, codes, Option, none, some,
}
use resistance_network.Common.Int.{pos}
use resistance_network.TxHelpers.BigInt.{print_bigint}
use resistance_network.Json.{whole, Request, Reply, failed, http_status, rpc_error, result}

-- One node of the local test network.
pub record TestnetNode : Type 0 where
  pub id : Text
  pub index : ℕ
  pub port : ℕ
  pub online : Bool
  pub block_height : ℕ
  pub validator : Text

-- What the monitor reads of a block; a field may be missing.
pub record HeadBlock : Type 0 where
  pub height : Option ℕ
  pub validator : Option Text

abbrev pub head_of : List HeadBlock → HeadBlock
head_of [] = record { height = none; validator = none }
head_of (b ∷ bs) = b

abbrev pub height_or_zero : Option ℕ → ℕ
height_or_zero none = 0
height_or_zero (some h) = h

abbrev pub validator_or_empty : Option Text → Text
validator_or_empty none = []
validator_or_empty (some v) = v

abbrev pub node_id : ℕ → Text
node_id i = codes "node-" ++ print_bigint (pos i)

abbrev pub online_node : ℕ → ℕ → HeadBlock → TestnetNode
online_node i port b = record {
  id = node_id i;
  index = i;
  port = port;
  online = true;
  block_height = height_or_zero b.height;
  validator = validator_or_empty b.validator;
}

abbrev pub offline_node : ℕ → ℕ → TestnetNode
offline_node i port = record {
  id = node_id i;
  index = i;
  port = port;
  online = false;
  block_height = 0;
  validator = [];
}

-- The answer of one node. Its `error` is not looked at: such an answer has no result.
unfoldable pub testnet_node : ℕ → ℕ → Reply (List HeadBlock) → TestnetNode
testnet_node i port (failed m) = offline_node i port
testnet_node i port (http_status n) = offline_node i port
testnet_node i port (rpc_error m) = online_node i port (head_of [])
testnet_node i port (result blocks) = online_node i port (head_of blocks)

unfoldable pub poll : (Request → Reply (List HeadBlock)) → ℕ → List ℕ → List TestnetNode
poll net i [] = []
poll net i (port ∷ ports) =
    testnet_node i port (
      net (record {
        endpoint = codes "http://localhost:" ++ print_bigint (pos port);
        id = port;
        method = codes "rstn_getLatestBlocks";
        params = whole 1 ∷ [];
      }))
    ∷ poll net (i + 1) ports

unfoldable pub get_testnet_nodes : (Request → Reply (List HeadBlock)) → List TestnetNode
unfolding poll
get_testnet_nodes net = poll net 0 (9944 ∷ 9946 ∷ 9948 ∷ 9950 ∷ [])
