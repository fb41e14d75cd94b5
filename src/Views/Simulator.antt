-- ===== src/Views/Simulator.antt =====
-- src/components/views/BridgeSimulator.tsx: the simulated transfer over a bridge, which its timers
-- drive. `toLocaleTimeString` and the printing of a number are arguments.
mod Chains
pub mod Liveness
unfoldable pub use Chains.*
use resistance_network.Common.{
  ℕ, ◌+◌, ◌-◌, Bool, true, false, not, ◌||◌, ◌≡◌, String, List, [], ◌∷◌, ◌++◌, Text, codes, length,
  ◌==◌, if◌then◌else◌, Option, none, some,
}
use resistance_network.Common.Int.{pos}
use resistance_network.TxHelpers.BigInt.{print_bigint}
use resistance_network.Views.Number.{Float, parse_float, is_at_most_zero, is_empty}

pub data ChainId : Type 0 where
  btc : ChainId
  eth : ChainId

abbrev pub chain_name : ChainId → Text
chain_name btc = codes "BTC"
chain_name eth = codes "ETH"

abbrev pub chain_config : ChainId → ChainConfig
chain_config btc = btc_config
chain_config eth = eth_config

-- One timer: the time from the start at which it is due, whether it ends the step or starts it, whether
-- that is the last step, and what its callback holds of the variables of `start`.
pub record Timer : Type 0 where
  pub due : ℕ
  pub completes : Bool
  pub is_last : Bool
  pub idx : ℕ
  pub bridge_step : BridgeStep
  pub chain : ChainId
  pub amount : Text

-- The state; `active_step` has none for -1. `timers` are those that have not fired, in the order in
-- which they are due.
pub record Simulator : Type 0 where
  pub chain : ChainId
  pub amount : Text
  pub active_step : Option ℕ
  pub is_running : Bool
  pub log : List Text
  pub timers : List Timer

unfoldable pub idle : Simulator
idle = record {
  chain = btc;
  amount = codes "1.0";
  active_step = none;
  is_running = false;
  log = [];
  timers = [];
}

unfoldable pub reset : Simulator → Simulator
reset s = record s { timers = []; active_step = none; is_running = false; log = [] }

-- The two timers of each step, the first of them due after `elapsed`.
unfoldable pub schedule : ChainId → Text → ℕ → ℕ → ℕ → List BridgeStep → List Timer
schedule chain amt total idx elapsed [] = []
schedule chain amt total idx elapsed (st ∷ steps) =
    record {
      due = elapsed;
      completes = false;
      is_last = idx == total - 1;
      idx = idx;
      bridge_step = st;
      chain = chain;
      amount = amt;
    }
    ∷ record {
      due = elapsed + st.duration;
      completes = true;
      is_last = idx == total - 1;
      idx = idx;
      bridge_step = st;
      chain = chain;
      amount = amt;
    }
    ∷ schedule chain amt total (idx + 1) (elapsed + st.duration + 200) steps

-- `[now] text`
abbrev pub stamped : Text → Text → Text
stamped now text = codes "[" ++ (now ++ (codes "] " ++ text))

-- What `start` does behind its guard.
unfoldable pub launch : (Float → Text) → Text → Simulator → Simulator
launch print now s =
    let amt = print (parse_float s.amount) in
    let config = chain_config s.chain in
    record (reset s) {
      is_running = true;
      active_step = some 0;
      log =
          stamped now (
            codes "Iniciando puente: "
            ++ (amt ++ (codes " " ++ (chain_name s.chain ++ codes " → RSTN"))))
          ∷ stamped now (codes "Modelo: " ++ codes config.model)
          ∷ [];
      timers = schedule s.chain amt (length config.steps) 0 0 config.steps;
    }

unfoldable pub start : (Float → Text) → Text → Simulator → Simulator
start print now s =
    if is_empty s.amount || is_at_most_zero (parse_float s.amount) then s else launch print now s

abbrev pub ended_log : Text → Timer → List Text
ended_log now t =
    stamped now (
      codes "✅ Puente completado: "
      ++ (t.amount
          ++ (codes " "
              ++ (chain_name t.chain
                  ++ (codes " → "
                      ++ (t.amount ++ (codes " w" ++ (chain_name t.chain ++ codes " en RSTN"))))))))
    ∷ stamped now (codes "Dirección destino: clave Dilithium3 (resistente a cuántica)")
    ∷ stamped now (codes "Respaldado 1:1 — Proof of Reserves auditable on-chain")
    ∷ []

-- The callback of a timer, at the time `now`.
unfoldable pub complete_step : Text → Timer → Simulator → Simulator
complete_step now t s =
    let logged =
      s.log
      ++ stamped now (codes "✓ " ++ (codes t.bridge_step.label ++ codes " — completado")) ∷ [] in
    if t.is_last
    then record s { active_step = some 5; is_running = false; log = logged ++ ended_log now t }
    else record s { log = logged }

unfoldable pub begin_step : Text → Timer → Simulator → Simulator
begin_step now t s = record s {
  active_step = some t.idx;
  log =
      s.log
      ++ stamped now (
          codes "Paso "
          ++ (print_bigint (pos t.bridge_step.id)
              ++ (codes ": " ++ (codes t.bridge_step.label ++ codes "..."))))
        ∷ [];
}

unfoldable pub fire : Text → Timer → Simulator → Simulator
fire now t s = if t.completes then complete_step now t s else begin_step now t s

unfoldable pub fire_next : Text → List Timer → Simulator → Simulator
fire_next now [] s = s
fire_next now (t ∷ ts) s = fire now t (record s { timers = ts })

-- All timers that are left, one behind the other.
unfoldable pub settle : (Timer → Text) → List Timer → Simulator → Simulator
settle clock [] s = s
settle clock (t ∷ ts) s = settle clock ts (fire (clock t) t (record s { timers = ts }))

unfoldable pub set_amount : Text → Simulator → Simulator
set_amount a s = if not s.is_running then record s { amount = a } else s

unfoldable pub switch_chain : ChainId → Simulator → Simulator
switch_chain c s = if s.is_running then s else reset (record s { chain = c })

pub data Step : Simulator → Simulator → Type 0 where
  started : {s : Simulator} (print : Float → Text) (now : Text) → Step s (start print now s)
  stopped : {s : Simulator} → Step s (reset s)
  fired : {s : Simulator} (now : Text) → Step s (fire_next now s.timers s)
  typed : {s : Simulator} (a : Text) → Step s (set_amount a s)
  switched : {s : Simulator} (c : ChainId) → Step s (switch_chain c s)

pub data Reachable : Simulator → Type 0 where
  begin : Reachable idle
  step : {s s' : Simulator} → Reachable s → Step s s' → Reachable s'
