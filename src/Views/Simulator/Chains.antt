-- ===== src/Views/Simulator/Chains.antt =====
-- src/components/views/BridgeSimulator.tsx: the chains of the simulation and their steps.
use resistance_network.Common.{ℕ, String, List, [], ◌∷◌}

pub record BridgeStep : Type 0 where
  pub id : ℕ
  pub label : String
  pub detail : String
  pub duration : ℕ

pub record ChainConfig : Type 0 where
  pub name : String
  pub color : String
  pub model : String
  pub finality_label : String
  pub finality_ms : ℕ
  pub steps : List BridgeStep

abbrev pub btc_config : ChainConfig
btc_config = record {
  name = "Bitcoin";
  color = "hsl(150 70% 50%)";
  model = "Lock-and-Mint (threshold ECDSA 51-de-100 + SPV)";
  finality_label = "6 confirmaciones (~60 min en mainnet)";
  finality_ms = 3000;
  steps =
      record {
        id = 1;
        label = "Transferir BTC al vault P2WSH";
        detail =
            "El usuario envía BTC a la dirección del comité de firmantes (threshold ECDSA 51-de-100). Solo quien controla la clave ECDSA puede firmar esta transferencia — es la prueba de posesión.";
        duration = 2200;
      }
      ∷ record {
        id = 2;
        label = "Esperar finality (6 confirmaciones)";
        detail =
            "Los validadores RSTN esperan 6 confirmaciones de Bitcoin (~60 min en mainnet). Sin finality, no hay emisión — previene reorgs.";
        duration = 2800;
      }
      ∷ record {
        id = 3;
        label = "SPV light client verifica";
        detail =
            "El SPV light client embebido verifica el header del bloque + prueba Merkle de inclusión. No confía en el comité — confía en la proof-of-work de Bitcoin.";
        duration = 2400;
      }
      ∷ record {
        id = 4;
        label = "Validadores verifican + votan";
        detail =
            "Los validadores RSTN (4,128+) verifican la prueba SPV y votan con firmas Dilithium3. Supermajority BFT (2/3+) confirma la transferencia.";
        duration = 2200;
      }
      ∷ record {
        id = 5;
        label = "Mint wBTC 1:1 respaldado";
        detail =
            "RSTN emite wBTC a una dirección Dilithium3 del usuario. Respaldado 1:1 por el BTC bloqueado en el vault. La clave ECDSA original ya no controla ese BTC — aunque un QC la rompa, no hay nada que robar.";
        duration = 2000;
      }
      ∷ [];
}

abbrev pub eth_config : ChainConfig
eth_config = record {
  name = "Ethereum";
  color = "hsl(150 100% 45%)";
  model = "Lock nativo + Burn ERC-20";
  finality_label = "Finality epoch (~12 min en mainnet)";
  finality_ms = 2500;
  steps =
      record {
        id = 1;
        label = "Lock ETH / Burn ERC-20";
        detail =
            "ETH nativo: el usuario bloquea su ETH en un contrato de lock verificable (no se quema — ETH nativo no tiene función burn). ERC-20s (USDC, USDT): el usuario quema los tokens con burn() en el contrato origen. Solo quien controla la clave puede autorizarlo.";
        duration = 2200;
      }
      ∷ record {
        id = 2;
        label = "Esperar finality epoch";
        detail =
            "Los validadores esperan el finality epoch de Ethereum (~12 min en mainnet). Finality determinista — sin reorgs posibles después de este punto.";
        duration = 2500;
      }
      ∷ record {
        id = 3;
        label = "Sync committee light client";
        detail =
            "El light client de Ethereum (sync committee, Altair upgrade) verifica el header + prueba de inclusión del lock/burn. Verificación on-chain, sin custodio.";
        duration = 2400;
      }
      ∷ record {
        id = 4;
        label = "Validadores verifican + votan";
        detail =
            "Los validadores RSTN verifican la prueba del light client y votan con firmas Dilithium3. Supermajority BFT (2/3+) confirma el lock/burn.";
        duration = 2200;
      }
      ∷ record {
        id = 5;
        label = "Mint wETH 1:1 respaldado";
        detail =
            "RSTN emite wETH a una dirección Dilithium3 del usuario. Respaldado 1:1 por el ETH bloqueado o los tokens quemados. Sin transferencia verificada, no hay emisión.";
        duration = 2000;
      }
      ∷ [];
}
