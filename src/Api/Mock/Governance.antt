-- ===== src/Api/Mock/Governance.antt =====
-- src/lib/protocol.ts: `GOVERNANCE_PROPOSALS`.
use resistance_network.Common.{List, [], ◌∷◌}
use resistance_network.Api.Data.{GovernanceProposal}

abbrev pub governance_proposals : List GovernanceProposal
governance_proposals =
    record {
      id = "NIP-001";
      title = "Activar 64 shards en mainnet";
      status = "Votación activa";
      votes_for = 72;
      votes_against = 18;
      turnout = "34.2%";
      ends_in = "2d 14h";
      description =
          "Propone la activación completa de los 64 shards dinámicos en el bloque 9,000,000.";
    }
    ∷ record {
      id = "NIP-002";
      title = "Reducir comisión máxima de validadores a 10%";
      status = "Votación activa";
      votes_for = 61;
      votes_against = 29;
      turnout = "28.7%";
      ends_in = "5d 02h";
      description =
          "Establece un techo de 10% en la comisión que los validadores pueden cobrar a sus delegadores.";
    }
    ∷ record {
      id = "NIP-003";
      title = "Programa de bug bounty — $500K";
      status = "Aprobado";
      votes_for = 89;
      votes_against = 4;
      turnout = "52.1%";
      ends_in = "Finalizado";
      description =
          "Asigna $500K de la tesorería para un programa de bug bounty con recompensas escalonadas.";
    }
    ∷ []
