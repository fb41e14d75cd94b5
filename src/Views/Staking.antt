-- ===== src/Views/Staking.antt =====
-- src/components/views/StakingView.tsx: staking, unstaking, claiming and delegating. Its inputs are of the
-- type "number", which holds no infinity. The printing of an amount and of the messages that the engine
-- throws are arguments.
pub mod Amounts
use resistance_network.Common.{
  ℕ, Bool, true, false, List, [], ◌∷◌, ◌++◌, String, Text, codes, take, text_eq, if◌then◌else◌,
  Option, none, some, Result, ok, err, Error,
}
use resistance_network.Json.{Decimal, Request, Reply}
use resistance_network.Api.{State}
use resistance_network.Api.Data.{WalletPortfolio, StakingValidator}
use resistance_network.Api.Reads.{
  StakingInfo, get_wallet_portfolio, get_staking_info, get_staking_validators,
}
use resistance_network.Api.Writes.{StakingReceipt, stake, unstake, claim_rewards, delegate}
use resistance_network.Views.Number.{Float, nan, infinite, finite, parse_float, is_missing}
use resistance_network.Views.Messages.{message_of}

pub record Status : Type 0 where
  pub kind : Text
  pub message : Text

-- The state of `PortfolioTab`.
pub record Portfolio : Type 0 where
  pub portfolio : Option WalletPortfolio
  pub loading : Bool
  pub staking_info : Option StakingInfo
  pub stake_amount : Text
  pub unstake_amount : Text
  pub tx_status : Option Status
  pub pending : Option Text

-- The state of `ValidatorsTab`.
pub record Validators : Type 0 where
  pub validators : List StakingValidator
  pub delegate_to : Option StakingValidator
  pub delegate_amount : Text
  pub pending : Bool
  pub tx_status : Option Status

-- `parseFloat(text)`, unless it is missing or at most zero.
abbrev pub finite_of : Float → Option Decimal
finite_of nan = none
finite_of (infinite minus) = none
finite_of (finite d) = some d

unfoldable pub amount_of : Text → Option Decimal
amount_of text = if is_missing (parse_float text) then none else finite_of (parse_float text)

-- An address that is there and not empty.
abbrev pub address_of : Option Text → Option Text
address_of none = none
address_of (some []) = none
address_of (some (c ∷ a)) = some (c ∷ a)

abbrev pub success : Text → Option Status
success m = some (record { kind = codes "success"; message = m })

abbrev pub failure : Text → Option Status
failure m = some (record { kind = codes "error"; message = m })

-- What the tabs take from their surroundings.
pub record Surroundings : Type 0 where
  pub receipts : Request → Reply StakingReceipt
  pub portfolios : Request → Reply WalletPortfolio
  pub infos : Request → Reply StakingInfo
  pub lists : Request → Reply (List StakingValidator)
  pub random : Text
  pub print : Decimal → Text
  pub native : Error → Text

abbrev pub begin : Text → Portfolio → Portfolio
begin name t = record t { pending = some name; tx_status = none }

-- The rest of a handler: what its success shows, and then the portfolio; or the error behind a prefix.
unfoldable pub conclude :
    Surroundings
    → Text
    → (StakingReceipt → Portfolio → Portfolio)
    → Text
    → State × Result StakingReceipt
    → Portfolio
    → State × Portfolio
conclude e address shown prefix (s, ok r) t =
    let (s', p) = get_wallet_portfolio e.portfolios address s in
    (s', record (shown r t) { portfolio = some p; pending = none })
conclude e address shown prefix (s, err x) t =
    (s, record t { tx_status = failure (prefix ++ message_of e.native x); pending = none })

abbrev pub hash_text : StakingReceipt → Text
hash_text r = take 16 r.hash ++ codes "..."

unfoldable pub staked : Surroundings → Decimal → StakingReceipt → Portfolio → Portfolio
staked e d r t = record t {
  tx_status =
      success
        (codes "Stake de " ++ (e.print d ++ (codes " RSTN confirmado. Hash: " ++ hash_text r)));
  stake_amount = [];
}

unfoldable pub unstaked : Surroundings → Decimal → StakingReceipt → Portfolio → Portfolio
unstaked e d r t = record t {
  tx_status =
      success
        (codes "Unstake de " ++ (e.print d ++ (codes " RSTN confirmado. Hash: " ++ hash_text r)));
  unstake_amount = [];
}

unfoldable pub claimed : Surroundings → StakingReceipt → Portfolio → Portfolio
claimed e r t = record t {
  tx_status = success (
      codes "Recompensas reclamadas: "
      ++ (e.print r.amount ++ (codes " RSTN. Hash: " ++ hash_text r)));
}

unfoldable pub stake_with :
    Surroundings → Option Decimal → Option Text → State → Portfolio → State × Portfolio
stake_with e none a s t = (s, t)
stake_with e (some d) none s t = (s, t)
stake_with e (some d) (some address) s t =
    conclude e address (staked e d) (codes "Error al stakar: ")
      (stake e.receipts address d e.random s) (begin (codes "stake") t)

unfoldable pub handle_stake : Surroundings → Option Text → State → Portfolio → State × Portfolio
handle_stake e address s t = stake_with e (amount_of t.stake_amount) (address_of address) s t

unfoldable pub unstake_with :
    Surroundings → Option Decimal → Option Text → State → Portfolio → State × Portfolio
unstake_with e none a s t = (s, t)
unstake_with e (some d) none s t = (s, t)
unstake_with e (some d) (some address) s t =
    conclude e address (unstaked e d) (codes "Error al unstakar: ")
      (unstake e.receipts address d e.random s) (begin (codes "unstake") t)

unfoldable pub handle_unstake : Surroundings → Option Text → State → Portfolio → State × Portfolio
handle_unstake e address s t = unstake_with e (amount_of t.unstake_amount) (address_of address) s t

unfoldable pub claim_with : Surroundings → Option Text → State → Portfolio → State × Portfolio
claim_with e none s t = (s, t)
claim_with e (some address) s t =
    conclude e address (claimed e) (codes "Error al reclamar: ")
      (claim_rewards e.receipts address e.random s) (begin (codes "claim") t)

unfoldable pub handle_claim : Surroundings → Option Text → State → Portfolio → State × Portfolio
handle_claim e address s t = claim_with e (address_of address) s t

-- `handleDelegate`, behind its request.
unfoldable pub delegated :
    Surroundings
    → StakingValidator
    → Decimal
    → State × Result StakingReceipt
    → Validators
    → State × Validators
delegated e v d (s, ok r) t =
    let (s', vs) = get_staking_validators e.lists s in
    (
      s',
      record t {
        tx_status = success (
            codes "Delegación de "
            ++ (e.print d
                ++ (codes " RSTN a "
                    ++ (codes v.name ++ (codes " confirmada. Hash: " ++ hash_text r)))));
        delegate_amount = [];
        delegate_to = none;
        validators = vs;
        pending = false;
      },
    )
delegated e v d (s, err x) t = (
  s,
  record t {
    tx_status = failure (codes "Error al delegar: " ++ message_of e.native x);
    pending = false;
  },
)

unfoldable pub delegate_with :
    Surroundings
    → Option StakingValidator
    → Option Decimal
    → Option Text
    → State
    → Validators
    → State × Validators
delegate_with e none d a s t = (s, t)
delegate_with e (some v) none a s t = (s, t)
delegate_with e (some v) (some d) none s t = (s, t)
delegate_with e (some v) (some d) (some address) s t =
    delegated e v d (delegate e.receipts address (codes v.address) d e.random s)
      (record t { pending = true; tx_status = none })

unfoldable pub handle_delegate :
    Surroundings → Option Text → State → Validators → State × Validators
handle_delegate e address s t =
    delegate_with e t.delegate_to (amount_of t.delegate_amount) (address_of address) s t

-- `handleVote` behind its 600 milliseconds: it asks for nothing.
unfoldable pub handle_vote : Bool → Text → Status
handle_vote in_favour proposal = record {
  kind = codes "success";
  message =
      codes "Voto "
      ++ ((if in_favour then codes "a favor" else codes "en contra")
          ++ (codes " registrado on-chain para "
              ++ (proposal ++ codes ". Costo cuadrático: 1 RSTN.")));
}
