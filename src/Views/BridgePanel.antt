-- ===== src/Views/BridgePanel.antt =====
-- src/components/views/BridgeLivePanel.tsx: the form of a lock or a burn. The reserves and operations
-- that it loads behind a submission are arguments, and `String(amount)` is one.
pub mod Accepted
use resistance_network.Common.{
  ℕ, Bool, true, false, not, ◌&&◌, ◌||◌, ◌==◌, ltb, List, [], ◌∷◌, ◌++◌, Text, codes, text_eq,
  length, take, all, find, trim, trim_start, if◌then◌else◌, Option, none, some,
}
use resistance_network.Common.Int.{pos}
use resistance_network.TxHelpers.Hex.{is_hex}
use resistance_network.Validation.{is_valid_rstn_address, all_digits, parse_int, is_positive}
use resistance_network.Common.Double.{Double, nan, finite, infinite}
use resistance_network.Json.{Json, null, num, Request, Reply}
use resistance_network.Api.{State}
use resistance_network.Bridge.{
  BridgeReserves, BridgeOps, BridgeOpResult, WrappedBalance, bridge_submit_lock, bridge_submit_burn,
  bridge_get_wrapped_balance,
}

pub data Mode : Type 0 where
  lock : Mode
  burn : Mode

pub data MessageKind : Type 0 where
  success : MessageKind
  failure : MessageKind
  notice : MessageKind

pub record Panel : Type 0 where
  pub reserves : Option BridgeReserves
  pub ops : BridgeOps
  pub loading : Bool
  pub busy : Bool
  pub message : Option (MessageKind × Text)
  pub mode : Mode
  pub chain : Text
  pub amount : Text
  pub source_txid : Text
  pub user_address : Text
  pub wrapped_balance : Option WrappedBalance

unfoldable pub mounted : Panel
mounted = record {
  reserves = none;
  ops = record { pending = []; completed = [] };
  loading = true;
  busy = false;
  message = none;
  mode = lock;
  chain = codes "Bitcoin";
  amount = codes "1000";
  source_txid = codes "a1b2c3d4e5f6";
  user_address = [];
  wrapped_balance = none;
}

-- The symbols of the chains, in the order of the form.
abbrev pub chain_options : List (Text × Text)
chain_options =
    (codes "Bitcoin", codes "wBTC")
    ∷ (codes "Ethereum", codes "wETH")
    ∷ (codes "Solana", codes "wSOL")
    ∷ (codes "BSC", codes "wBNB")
    ∷ (codes "Avalanche", codes "wAVAX")
    ∷ []

abbrev pub symbol_or : Option (Text × Text) → Text
symbol_or none = codes "wBTC"
symbol_or (some (c, [])) = codes "wBTC"
symbol_or (some (c, x ∷ s)) = x ∷ s

unfoldable pub current_symbol : Panel → Text
current_symbol p = symbol_or (find (λ c. text_eq c.0 p.chain) chain_options)

unfoldable pub refreshed : BridgeReserves → BridgeOps → Panel → Panel
refreshed r o p = record p { reserves = some r; ops = o; loading = false }

-- The answer of `checkWrappedBalance`, which asks only for an address.
unfoldable pub check_wrapped_balance :
    (Request → Reply WrappedBalance) → State → Panel → State × Panel
check_wrapped_balance net s p = elim p.user_address [
  | [] ↦ (s, p)
  | c ∷ a ↦
      let (s', b) = bridge_get_wrapped_balance net p.chain p.user_address s in
      (s', record p { wrapped_balance = some b })
]

abbrev pub is_empty : Text → Bool
is_empty [] = true
is_empty (c ∷ s) = false

abbrev pub is_lock : Mode → Bool
is_lock lock = true
is_lock burn = false

-- Whether the text of the amount is refused, and whether its number is.
unfoldable pub bad_amount : Text → Bool
bad_amount amount = not (all_digits (trim amount))

unfoldable pub no_amount : Text → Bool
no_amount amount = not (is_positive (parse_int (trim_start amount)))

unfoldable pub bad_txid : Text → Bool
bad_txid txid =
    is_empty (trim txid)
    || not (all is_hex (trim txid))
    || length (trim txid) == 0
    || ltb 128 (length (trim txid))

-- The message that refuses the form, or none.
unfoldable pub refusal : Panel → Option Text
refusal p =
    if is_empty p.user_address
    then some (codes "Ingresa tu dirección RSTN")
    else if not (is_valid_rstn_address p.user_address)
    then some (codes "Dirección inválida: debe ser rstn1 + 40 caracteres hex")
    else if bad_amount p.amount
    then some
        (codes "Cantidad inválida: debe ser un entero positivo (unidad mínima, ej. satoshis/wei)")
    else if no_amount p.amount
    then some (codes "Cantidad inválida")
    else if is_lock p.mode && bad_txid p.source_txid
    then some (codes "Source TxID inválido: debe ser hexadecimal (máx 128 chars)")
    else none

-- The number of the form.
abbrev pub entered : Panel → Double
entered p = parse_int (trim_start p.amount)

-- How a request carries it: Infinity and NaN have no JSON. The digits of a number from 2^53 on are the
-- fewest that read back as this double.
abbrev pub number_json : Double → Json
number_json nan = null
number_json (finite n) = num (record { mantissa = pos n; places = 0 })
number_json infinite = null

abbrev pub result_kind : Text → MessageKind
result_kind status = if text_eq status (codes "executed") then success else notice

-- The request of a submission, by its mode.
unfoldable pub submit :
    (Request → Reply BridgeOpResult)
    → (Double → Text)
    → Mode
    → Panel
    → State
    → State × BridgeOpResult
submit net print lock p s =
    bridge_submit_lock net p.chain p.source_txid (number_json (entered p)) (print (entered p))
      p.user_address s
submit net print burn p s =
    bridge_submit_burn net p.chain (number_json (entered p)) (print (entered p)) p.user_address s

-- What is shown of the result.
unfoldable pub result_text : (Double → Text) → Mode → Panel → BridgeOpResult → Text
result_text print lock p r =
    codes "Lock "
    ++ (r.status
        ++ (codes ": "
            ++ (print (entered p)
                ++ (codes " "
                    ++ (r.wrapped_symbol
                        ++ (codes " minted a "
                            ++ (take 12 p.user_address
                                ++ (codes "... (op: " ++ (take 18 r.op_id ++ codes "...)")))))))))
result_text print burn p r =
    codes "Burn "
    ++ (r.status
        ++ (codes ": "
            ++ (print (entered p)
                ++ (codes " "
                    ++ (r.wrapped_symbol
                        ++ (codes " quemados (op: " ++ (take 18 r.op_id ++ codes "...)")))))))

-- What an accepted form does.
unfoldable pub submitted :
    (Request → Reply BridgeOpResult)
    → (Request → Reply WrappedBalance)
    → (Double → Text)
    → BridgeReserves
    → BridgeOps
    → State
    → Panel
    → State × Panel
submitted net balance print r o s p =
    let (s', res) = submit net print p.mode p s in
    let (s'', p') = check_wrapped_balance balance s' (
      refreshed r o
        (record p { message = some (result_kind res.status, result_text print p.mode p res) })) in
    (s'', record p' { busy = false })

-- `handleSubmit`. No call in it throws, as each of them has an answer to fall back on.
unfoldable pub handle_submit :
    (Request → Reply BridgeOpResult)
    → (Request → Reply WrappedBalance)
    → (Double → Text)
    → BridgeReserves
    → BridgeOps
    → State
    → Panel
    → State × Panel
handle_submit net balance print r o s p = elim (refusal p) [
  | some m ↦ (s, record p { message = some (failure, m) })
  | none ↦ submitted net balance print r o s p
]
