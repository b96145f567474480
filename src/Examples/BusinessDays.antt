-- ===== src/Examples/BusinessDays.antt =====
-- Five business days after Wednesday, 24 April 2024 (day 19837), with a holiday on that Friday.
use kurtar.Prelude.{ℕ, ◌≡◌, ◌↔◌, ◌+◌, ◌*◌, refl, some, List, [], ◌∷◌, length}
use kurtar.BusinessDays.{add_business_days, business_steps, is_business_day, is_holiday}
use kurtar.BusinessDays.Nth.{add_business_days_total, add_business_days_iff, IsNthBusinessDay}

abbrev holidays : List ℕ
holidays = 19839 ∷ []

due_day : add_business_days 19837 5 holidays ≡ 19845
unfolding add_business_days business_steps is_business_day is_holiday
due_day = refl

add_business_days_total_example :
    (day : ℕ) × (business_steps (7 * (5 + length holidays)) holidays 19837 5 ≡ some day)
    × (add_business_days 19837 5 holidays ≡ day)
add_business_days_total_example = add_business_days_total 19837 5 holidays

add_business_days_iff_example :
    (add_business_days 19837 5 holidays ≡ 19845) ↔ IsNthBusinessDay holidays 19837 5 19845
add_business_days_iff_example = add_business_days_iff 19837 5 19845 holidays
