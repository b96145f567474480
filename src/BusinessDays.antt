-- ===== src/BusinessDays.antt =====
-- backend/src/modules/settlements/business-days.ts: the calendar of business days. A calendar day
-- is its number, with day 0 a Thursday (1970-01-01).
pub mod Nth
pub mod Instants
use kurtar.Prelude.{
  ℕ, zero, suc, ◌+◌, ◌*◌, ◌%◌, Bool, true, false, ◌||◌, not, Option, none, some, List, [], ◌∷◌,
  length, ◌==◌, if◌then◌else◌, ◌/◌, Result, ok, err, ◌>>=◌,
}
use kurtar.Settlement.Rate.{JsNumber, check_amount}

-- 0 is a Sunday and 6 a Saturday.
abbrev pub weekday_of : ℕ → ℕ
weekday_of day = (day + 4) % 7

-- `holidays.has(day)`.
unfoldable pub is_holiday : ℕ → List ℕ → Bool
is_holiday day [] = false
is_holiday day (h ∷ holidays) = if h == day then true else is_holiday day holidays

abbrev pub is_weekend : ℕ → Bool
is_weekend day = (weekday_of day == 0) || (weekday_of day == 6)

unfoldable pub is_business_day : ℕ → List ℕ → Bool
unfolding is_holiday
is_business_day day holidays = if is_weekend day then false else not (is_holiday day holidays)

-- The loop of `addBusinessDays`, with the rounds it may take.
unfoldable pub business_steps : ℕ → List ℕ → ℕ → ℕ → Option ℕ
unfolding is_business_day
business_steps fuel holidays cursor zero = some cursor
business_steps zero holidays cursor (suc remaining) = none
business_steps (suc fuel) holidays cursor (suc remaining) =
    business_steps fuel holidays (suc cursor)
      (if is_business_day (suc cursor) holidays then remaining else suc remaining)

abbrev pub or_day : ℕ → Option ℕ → ℕ
or_day day none = day
or_day day (some d) = d

-- A week has five working days, and a holiday takes one day at most.
unfoldable pub add_business_days : ℕ → ℕ → List ℕ → ℕ
unfolding business_steps
add_business_days date n holidays =
    or_day date (business_steps (7 * (n + length holidays)) holidays date n)

abbrev pub one_day_ms : ℕ
one_day_ms = 24 * 60 * 60 * 1000

-- `istanbulDateKey`: Europe/Istanbul is three hours ahead of UTC.
unfoldable pub istanbul_day : ℕ → ℕ
istanbul_day at = (at + 3 * 60 * 60 * 1000) / one_day_ms

-- What `addBusinessDays` throws.
pub data BusinessDaysError : Type 0 where
  invalid_n : JsNumber → BusinessDaysError

-- The whole function: from an instant, and any number, to the midnight of a day.
unfoldable pub add_business_days_from : ℕ → JsNumber → List ℕ → Result BusinessDaysError ℕ
unfolding check_amount add_business_days istanbul_day
add_business_days_from date n holidays = do
  count ← check_amount n (invalid_n n)
  ok (add_business_days (istanbul_day date) count holidays * one_day_ms)
