-- ===== src/BusinessDays/Instants.antt =====
-- business-days.ts, `addBusinessDays` on instants: when it throws, and which midnight it returns.
use kurtar.Prelude.{ℕ, ◌*◌, ◌≡◌, List}
use kurtar.Prelude.Int.{pos}
use kurtar.Settlement.Rate.{JsNumber, int}
use kurtar.BusinessDays.{istanbul_day, one_day_ms}
use kurtar.BusinessDays.Nth.{IsNthBusinessDay}

-- The midnight, in UTC, of the n-th business day after the Istanbul day of the instant.
pub record IsDue (holidays : List ℕ) (date : ℕ) (n : JsNumber) (at : ℕ) : Type 0 where
  pub count : ℕ
  pub is_count : n ≡ int (pos count)
  pub day : ℕ
  pub is_nth : IsNthBusinessDay holidays (istanbul_day date) count day
  pub at_midnight : at ≡ day * one_day_ms
