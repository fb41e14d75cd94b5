-- ===== src/Views/Messages.antt =====
-- What src/components/views shows of an error: `e.message`. The messages of the errors that the engine
-- itself throws are an argument.
use resistance_network.Common.{
  ◌++◌, Text, codes, Error, odd_length, invalid_hex, thrown, not_bigint, not_integer, out_of_range,
}
use resistance_network.Common.Int.{pos}
use resistance_network.TxHelpers.BigInt.{print_bigint}

abbrev pub message_of : (Error → Text) → Error → Text
message_of native (odd_length n) =
    codes "hexToBytes: odd-length hex (" ++ (print_bigint (pos n) ++ codes " chars)")
message_of native invalid_hex = codes "hexToBytes: invalid hex characters"
message_of native (thrown m) = m
message_of native not_bigint = native not_bigint
message_of native not_integer = native not_integer
message_of native out_of_range = native out_of_range
