-- ===== src/Sdk/Builder.antt =====
-- src/lib/rstn-sdk.ts: the static methods of `TransactionBuilder`.
use resistance_network.Common.{Bool, ◌++◌, Text, codes, replicate, if◌then◌else◌}
use resistance_network.Common.Int.{pos}
use resistance_network.TxHelpers.BigInt.{Num, int}
use resistance_network.TxHelpers.Encode.{UnsignedTransaction}

unfoldable pub transfer : Text → Text → Num → UnsignedTransaction
transfer to value nonce = record {
  to = to;
  value = value;
  nonce = nonce;
  gas_price = codes "1000000000";
  gas_limit = int (pos 21000);
  tx_type = codes "transfer";
  payload = codes "0x";
}

unfoldable pub stake : Text → Text → Num → UnsignedTransaction
stake validator value nonce = record {
  to = validator;
  value = value;
  nonce = nonce;
  gas_price = codes "1000000000";
  gas_limit = int (pos 50000);
  tx_type = codes "stake";
  payload = codes "0x";
}

unfoldable pub unstake : Text → Text → Num → UnsignedTransaction
unstake validator value nonce = record {
  to = validator;
  value = value;
  nonce = nonce;
  gas_price = codes "1000000000";
  gas_limit = int (pos 50000);
  tx_type = codes "unstake";
  payload = codes "0x";
}

unfoldable pub delegate : Text → Text → Num → UnsignedTransaction
delegate validator value nonce = record {
  to = validator;
  value = value;
  nonce = nonce;
  gas_price = codes "1000000000";
  gas_limit = int (pos 50000);
  tx_type = codes "delegate";
  payload = codes "0x";
}

unfoldable pub undelegate : Text → Text → Num → UnsignedTransaction
undelegate validator value nonce = record {
  to = validator;
  value = value;
  nonce = nonce;
  gas_price = codes "1000000000";
  gas_limit = int (pos 50000);
  tx_type = codes "undelegate";
  payload = codes "0x";
}

unfoldable pub claim : Text → Num → UnsignedTransaction
claim validator nonce = record {
  to = validator;
  value = codes "0";
  nonce = nonce;
  gas_price = codes "1000000000";
  gas_limit = int (pos 50000);
  tx_type = codes "claim";
  payload = codes "0x";
}

abbrev pub governance_address : Text
governance_address = codes "rstn1governance000000000000000000000000000"

unfoldable pub governance : Text → Bool → Num → UnsignedTransaction
governance proposal_id vote nonce =
    let vote_byte = if vote then codes "01" else codes "00" in
    record {
      to = governance_address;
      value = codes "0";
      nonce = nonce;
      gas_price = codes "1000000000";
      gas_limit = int (pos 80000);
      tx_type = codes "governance";
      payload = codes "0x" ++ (vote_byte ++ proposal_id);
    }

unfoldable pub contract_call : Text → Text → Num → Text → UnsignedTransaction
contract_call contract_address value nonce payload = record {
  to = contract_address;
  value = value;
  nonce = nonce;
  gas_price = codes "1000000000";
  gas_limit = int (pos 200000);
  tx_type = codes "contract_call";
  payload = payload;
}

unfoldable pub contract_deploy : Text → Num → Text → UnsignedTransaction
contract_deploy value nonce bytecode = record {
  to = codes "rstn1" ++ replicate 40 b'0';
  value = value;
  nonce = nonce;
  gas_price = codes "1000000000";
  gas_limit = int (pos 5000000);
  tx_type = codes "contract_deploy";
  payload = bytecode;
}
