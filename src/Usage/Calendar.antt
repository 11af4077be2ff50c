-- ===== src/Usage/Calendar.antt =====
-- `current_period`: the calendar month of a time, as `strftime("%Y-%m")` prints it.
use recall_select.Prelude.{ℕ, ◌+◌, ◌-◌, ◌*◌, ◌/◌, ◌%◌, ◌≡◌, refl, ltb, if◌then◌else◌}
use recall_select.Documents.{Period}
use recall_select.Billing.Tiers.{day}

-- The proleptic Gregorian calendar by days since 1970-01-01, counted in eras of 400 years that begin
-- on a first of March.
abbrev era_days : ℕ
era_days = 146097

-- The day of the era, and the year of the era that it lies in.
day_of_era : ℕ → ℕ
day_of_era days = (days + 719468) % era_days

year_of_era : ℕ → ℕ
year_of_era d = (d - d / 1460 + d / 36524 - d / 146096) / 365

-- The month of the year that begins in March, from 0.
march_month : ℕ → ℕ
march_month d = let y = year_of_era d in (5 * (d - (365 * y + y / 4 - y / 100)) + 2) / 153

unfoldable pub current_period : ℕ → Period
unfolding day_of_era year_of_era march_month
current_period now =
    let days = now / day in
    let d = day_of_era days in
    let m = march_month d in
    let y = (days + 719468) / era_days * 400 + year_of_era d in
    record { year = if ltb m 10 then y else y + 1; month = if ltb m 10 then m + 3 else m - 9 }

-- 2024-02-29, 2026-12-31 and 1970-01-01.
leap_day : current_period (19782 * day) ≡ record { year = 2024; month = 2 }
unfolding current_period
leap_day = refl

last_of_year : current_period (20818 * day) ≡ record { year = 2026; month = 12 }
unfolding current_period
last_of_year = refl

epoch : current_period 0 ≡ record { year = 1970; month = 1 }
unfolding current_period
epoch = refl
