-- ===== src/BusinessDays/Nth.antt =====
-- business-days.ts: the loop ends, at the n-th business day after the date.
use kurtar.Prelude.{
  ℕ, zero, suc, ◌+◌, ◌*◌, ◌≤◌, ◌<◌, ◌≡◌, refl, sym, ◌∙◌, ◌↔◌, ◌⊎◌, inl, inr, Bool, true, false,
  some, List, [], ◌∷◌, length, arith, ◌==◌, if◌then◌else◌, Bool-cases,
}
use kurtar.BusinessDays.{
  weekday_of, is_weekend, is_holiday, is_business_day, business_steps, add_business_days,
}

abbrev one : Bool → ℕ
one b = if b then 1 else 0

-- The business days among the `len` days after `date`.
abbrev pub business_days_after : List ℕ → ℕ → ℕ → ℕ
business_days_after holidays date zero = 0
business_days_after holidays date (suc len) =
    one (is_business_day (suc date) holidays) + business_days_after holidays (suc date) len

-- The days among them that are no weekend days, and those that are one given day.
abbrev working_days : ℕ → ℕ → ℕ
working_days date zero = 0
working_days date (suc len) = (if is_weekend (suc date) then 0 else 1) + working_days (suc date) len

abbrev hits : ℕ → ℕ → ℕ → ℕ
hits h date zero = 0
hits h date (suc len) = one (h == suc date) + hits h (suc date) len

hits_later : (h date len : ℕ) → h ≤ date → hits h date len ≡ 0
hits_later h date zero p = refl
hits_later h date (suc len) p = let rest = hits_later h (suc date) len in ground (arith, rest)

hits_once : (h date len : ℕ) → hits h date len ≤ 1
hits_once h date zero = omega arith
hits_once h date (suc len) =
    let rest = hits_once h (suc date) len in
    let later = hits_later h (suc date) len in ground (arith, rest, later)

holiday_days : List ℕ → ℕ → ℕ → ℕ
holiday_days [] date len = 0
holiday_days (h ∷ holidays) date len = hits h date len + holiday_days holidays date len

holiday_days-le :
    (holidays : List ℕ) (date len : ℕ) → holiday_days holidays date len ≤ length holidays
unfolding holiday_days
holiday_days-le [] date len = omega arith
holiday_days-le (h ∷ holidays) date len =
    omega (arith, hits_once h date len, holiday_days-le holidays date len)

holiday_days-suc :
    (holidays : List ℕ) (date len : ℕ)
    → one (is_holiday (suc date) holidays) + holiday_days holidays (suc date) len
      ≤ holiday_days holidays date (suc len)
unfolding holiday_days is_holiday
holiday_days-suc [] date len = omega arith
holiday_days-suc (h ∷ holidays) date len =
    let rest = holiday_days-suc holidays date len in ground (arith, rest)

-- Only holidays keep working days from being business days.
working_days-le :
    (holidays : List ℕ) (date len : ℕ)
    → working_days date len ≤ business_days_after holidays date len + holiday_days holidays date len
unfolding is_business_day
working_days-le holidays date zero = omega arith
working_days-le holidays date (suc len) =
    let rest = working_days-le holidays (suc date) len in
    let first = holiday_days-suc holidays date len in ground (arith, rest, first)

-- 7 * k, in a form that `working_days` follows.
weeks : ℕ → ℕ
weeks zero = 0
weeks (suc k) = suc (suc (suc (suc (suc (suc (suc (weeks k)))))))

weeks_days : (k : ℕ) → weeks k ≡ 7 * k
unfolding weeks
weeks_days zero = refl
weeks_days (suc k) = omega (arith, weeks_days k)

weekday_next :
    (d : ℕ)
    → (weekday_of (suc d) ≡ suc (weekday_of d)) ⊎ ((weekday_of d ≡ 6) × (weekday_of (suc d) ≡ 0))
weekday_next d = omega arith

working_days-weeks : (date k : ℕ) → 5 * k ≤ working_days date (weeks k)
unfolding weeks
working_days-weeks date zero = omega arith
working_days-weeks date (suc k) =
    let rest = working_days-weeks (suc (suc (suc (suc (suc (suc (suc date))))))) k in
    let d1 = suc date in
    let d2 = suc d1 in
    let d3 = suc d2 in
    let d4 = suc d3 in
    let d5 = suc d4 in
    let d6 = suc d5 in
    let n1 = weekday_next d1 in
    let n2 = weekday_next d2 in
    let n3 = weekday_next d3 in
    let n4 = weekday_next d4 in
    let n5 = weekday_next d5 in
    let n6 = weekday_next d6 in ground (arith, rest, n1, n2, n3, n4, n5, n6)

-- The day is `len` days after the date, with `n` business days on the way, and is the date itself
-- or a business day.
abbrev pub IsNthBusinessDay : List ℕ → ℕ → ℕ → ℕ → Type 0
IsNthBusinessDay holidays date n day =
    (len : ℕ) × (day ≡ date + len)
    × (business_days_after holidays date len ≡ n)
    × ((len ≡ 0) ⊎ (is_business_day day holidays ≡ true))

business_steps-IsNth :
    (fuel : ℕ) (holidays : List ℕ) (cursor n day : ℕ)
    → business_steps fuel holidays cursor n ≡ some day
    → IsNthBusinessDay holidays cursor n day
unfolding business_steps
business_steps-IsNth fuel holidays cursor zero day e =
    let same : cursor ≡ day = cc in (0, omega (arith, same), refl, inl refl)
business_steps-IsNth zero holidays cursor (suc n) day e = cc
business_steps-IsNth (suc fuel) holidays cursor (suc n) day e =
    elim (Bool-cases (is_business_day (suc cursor) holidays)) [
      | inl t ↦
          let (len, place, count, last) =
            business_steps-IsNth fuel holidays (suc cursor) n day (rw (t, business_steps) at e) in
          (
            suc len,
            omega (arith, place),
            rw t (omega (arith, count)),
            inr (elim last [
              | inr business ↦ business
              | inl none_left ↦
                  let here : day ≡ suc cursor = omega (arith, place, none_left) in rw here t
            ]),
          )
      | inr t ↦
          let (len, place, count, last) =
            business_steps-IsNth fuel holidays (suc cursor) (suc n) day
              (rw (t, business_steps) at e) in
          (
            suc len,
            omega (arith, place),
            rw t (omega (arith, count)),
            inr (elim last [
              | inr business ↦ business
              | inl none_left ↦
                  let nothing : business_days_after holidays (suc cursor) 0 ≡ suc n =
                    rw none_left at count in
                  absurd (omega (arith, nothing))
            ]),
          )
    ]

business_steps-finishes :
    (fuel : ℕ) (holidays : List ℕ) (cursor n : ℕ)
    → n ≤ business_days_after holidays cursor fuel
    → (day : ℕ) × (business_steps fuel holidays cursor n ≡ some day)
unfolding business_steps
business_steps-finishes fuel holidays cursor zero h = (cursor, refl)
business_steps-finishes zero holidays cursor (suc n) h = absurd (omega (arith, h))
business_steps-finishes (suc fuel) holidays cursor (suc n) h =
    elim (Bool-cases (is_business_day (suc cursor) holidays)) [
      | inl t ↦
          let enough : suc n ≤ 1 + business_days_after holidays (suc cursor) fuel = rw t at h in
          let (day, e) =
            business_steps-finishes fuel holidays (suc cursor) n (omega (arith, enough)) in
          (day, counted t ∙ e)
      | inr t ↦
          let enough : suc n ≤ 0 + business_days_after holidays (suc cursor) fuel = rw t at h in
          let (day, e) =
            business_steps-finishes fuel holidays (suc cursor) (suc n) (omega (arith, enough)) in
          (day, passed t ∙ e)
    ]
  where
    counted :
        is_business_day (suc cursor) holidays ≡ true
        → business_steps (suc fuel) holidays cursor (suc n)
          ≡ business_steps fuel holidays (suc cursor) n
    counted t = rw (t, business_steps) refl

    passed :
        is_business_day (suc cursor) holidays ≡ false
        → business_steps (suc fuel) holidays cursor (suc n)
          ≡ business_steps fuel holidays (suc cursor) (suc n)
    passed t = rw (t, business_steps) refl

business_days-enough :
    (holidays : List ℕ) (date n : ℕ)
    → n ≤ business_days_after holidays date (7 * (n + length holidays))
business_days-enough holidays date n =
    let k = n + length holidays in
    let working : 5 * k ≤ working_days date (7 * k) =
      rw (weeks_days k) at (working_days-weeks date k) in
    omega
      (arith, working, working_days-le holidays date (7 * k), holiday_days-le holidays date (7 * k))

-- `addBusinessDays` returns, for every date, every n and every finite list of holidays: the rounds
-- that it is given always suffice for its loop to come to an end.
pub add_business_days_total :
    (date n : ℕ) (holidays : List ℕ)
    → (day : ℕ) × (business_steps (7 * (n + length holidays)) holidays date n ≡ some day)
      × (add_business_days date n holidays ≡ day)
unfolding add_business_days
add_business_days_total date n holidays =
    let (day, e) =
      business_steps-finishes (7 * (n + length holidays)) holidays date n
        (business_days-enough holidays date n) in
    (day, e, rw e refl)

business_days_later :
    (holidays : List ℕ) (date m len : ℕ)
    → m < len
    → is_business_day (date + len) holidays ≡ true
    → business_days_after holidays date m < business_days_after holidays date len
business_days_later holidays date m zero h e = absurd (omega (arith, h))
business_days_later holidays date zero (suc zero) h e =
    let here : date + 1 ≡ suc date = omega arith in
    let first : is_business_day (suc date) holidays ≡ true = rw here at e in rw first (omega arith)
business_days_later holidays date zero (suc (suc len)) h e =
    let there : date + suc (suc len) ≡ suc date + suc len = omega arith in
    let last : is_business_day (suc date + suc len) holidays ≡ true = rw there at e in
    let rest = business_days_later holidays (suc date) zero (suc len) (omega arith) last in
    omega (arith, rest)
business_days_later holidays date (suc m) (suc len) h e =
    let there : date + suc len ≡ suc date + len = omega arith in
    let last : is_business_day (suc date + len) holidays ≡ true = rw there at e in
    let rest = business_days_later holidays (suc date) m len (omega (arith, h)) last in
    omega (arith, rest)

-- Of two such days the later one cannot be a business day.
IsNthBusinessDay-le :
    (holidays : List ℕ) (date n d e : ℕ)
    → IsNthBusinessDay holidays date n d
    → IsNthBusinessDay holidays date n e
    → d ≤ e
IsNthBusinessDay-le holidays date n d e (len, place, count, last) (m, place2, count2, last2) =
    elim last [
      | inl z ↦ omega (arith, place, place2, z)
      | inr t ↦
          let there : is_business_day (date + len) holidays ≡ true = rw place at t in
          let later = λ (h : m < len). business_days_later holidays date m len h there in
          ground (arith, place, place2, count, count2, later)
    ]

-- The result of `addBusinessDays` is the one day that is a business day with exactly n business
-- days after the date up to and with it, or the date itself when n is 0.
pub add_business_days_iff :
    (date n day : ℕ) (holidays : List ℕ)
    → (add_business_days date n holidays ≡ day) ↔ IsNthBusinessDay holidays date n day
add_business_days_iff date n day holidays =
    let (found, e, same) = add_business_days_total date n holidays in
    let reference = business_steps-IsNth (7 * (n + length holidays)) holidays date n found e in
    (
      λ h. let it : found ≡ day = sym same ∙ h in rw it at reference,
      λ h. omega (
        arith,
        same,
        IsNthBusinessDay-le holidays date n found day reference h,
        IsNthBusinessDay-le holidays date n day found h reference,
      ),
    )
