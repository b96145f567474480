-- ===== src/Status/Settlement.antt =====
-- backend/src/modules/settlements/settlement-transitions.ts.
use kurtar.Prelude.{ℕ, List, [], ◌∷◌}
use kurtar.Status.{Machine}

pub data SettlementStatus : Type 0 where
  pending calculated approved held sent settled failed : SettlementStatus

abbrev code : SettlementStatus → ℕ
code pending = 0
code calculated = 1
code approved = 2
code held = 3
code sent = 4
code settled = 5
code failed = 6

abbrev pub settlement_transitions : SettlementStatus → List SettlementStatus
settlement_transitions pending = calculated ∷ []
settlement_transitions calculated = approved ∷ held ∷ []
settlement_transitions approved = sent ∷ held ∷ []
settlement_transitions held = calculated ∷ []
settlement_transitions sent = settled ∷ failed ∷ []
settlement_transitions settled = []
settlement_transitions failed = []

abbrev pub machine : Machine SettlementStatus
machine = record {
  code = code;
  keys = pending ∷ calculated ∷ approved ∷ held ∷ sent ∷ settled ∷ failed ∷ [];
  next = settlement_transitions;
}

-- `RECOMPUTABLE_SETTLEMENT_STATUSES`.
abbrev pub recomputable_settlement_statuses : List SettlementStatus
recomputable_settlement_statuses = calculated ∷ held ∷ []
