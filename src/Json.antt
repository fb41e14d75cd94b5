-- ===== src/Json.antt =====
-- JSON values, as the requests of src/lib/rstn-client.ts and src/lib/api.ts hold them, and the answer
-- of a node to one request. The transport (`fetch`, timers, JSON parsing) is a parameter.
use resistance_network.Common.{
  ℕ, Bool, Text, codes, ◌++◌, List, [], ◌∷◌, Option, none, some, Result, ok, err, thrown,
}
use resistance_network.Common.Int.{ℤ, pos}
use resistance_network.TxHelpers.BigInt.{print_bigint}

-- A finite decimal number, `mantissa` / 10 ^ `places`. A number of the source that is a fraction is
-- carried so; infinities and NaN have no JSON.
pub record Decimal : Type 0 where
  pub mantissa : ℤ
  pub places : ℕ

mutual
  pub data Json : Type 0 where
    null : Json
    boolean : Bool → Json
    num : Decimal → Json
    str : Text → Json
    arr : Items → Json
    obj : Fields → Json

  pub data Items : Type 0 where
    nil : Items
    cons : Json → Items → Items

  pub data Fields : Type 0 where
    end : Fields
    field : Text → Json → Fields → Fields

abbrev pub whole : ℕ → Json
whole n = num (record { mantissa = pos n; places = 0 })

pub record Request : Type 0 where
  pub endpoint : Text
  pub id : ℕ
  pub method : Text
  pub params : List Json

-- What comes of one `fetch`: it rejects (or is aborted, or its body is no JSON) with a message; the
-- HTTP status is no success; the body has an `error`, perhaps with a message; or it has a `result`,
-- which the sources take at the type `A` with no check.
pub data Reply {ℓ} (A : Type ℓ) : Type ℓ where
  failed : Text → Reply A
  http_status : ℕ → Reply A
  rpc_error : Option Text → Reply A
  result : A → Reply A

-- `json.error.message || "RPC error"`
abbrev pub message_or : Option Text → Text
message_or none = codes "RPC error"
message_or (some []) = codes "RPC error"
message_or (some (c ∷ s)) = c ∷ s

-- The part of `rpcCall` behind the `fetch`, in both files.
unfoldable pub outcome {ℓ} : {A : Type ℓ} → Reply A → Result A
outcome (failed m) = err (thrown m)
outcome (http_status n) = err (thrown (codes "RPC HTTP " ++ print_bigint (pos n)))
outcome (rpc_error m) = err (thrown (message_or m))
outcome (result a) = ok a
