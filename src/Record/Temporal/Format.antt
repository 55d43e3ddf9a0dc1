-- ===== src/Record/Temporal/Format.antt =====
-- `format_utc` of an_kla/temporal.py, on a `datetime` in UTC.
use an_kla_memory.Base.{
  ℕ, zero, suc, ◌+◌, ◌-◌, ◌/◌, ◌%◌, String, ◌<>◌, ltb, leb, if◌then◌else◌, len,
}
use an_kla_memory.Canonical.{decimal}
use an_kla_memory.Record.Temporal.{Civil, days_before_year, days_in_month, micros_per_day}

-- `f"{n:0{width}d}"`, `missing` being the width less one
abbrev pad_from : ℕ → String → String
pad_from zero s = s
pad_from (suc missing) s = "0" <> pad_from missing s

abbrev padded : ℕ → ℕ → String
padded width n = pad_from (width - len (decimal n)) (decimal n)

-- The last year that begins on the day or before, in as many steps at most.
unfoldable year_from : ℕ → ℕ → ℕ → ℕ
unfolding days_before_year
year_from zero day y = y
year_from (suc fuel) day y =
    let later = year_from fuel day (suc y) in
    if leb (days_before_year (suc y)) day then later else y

-- The month and the day of a day of the year, counted from 0.
unfoldable month_from : ℕ → ℕ → ℕ → ℕ → ℕ × ℕ
unfolding days_in_month
month_from zero y month day = (month, suc day)
month_from (suc fuel) y month day =
    let later = month_from fuel y (suc month) (day - days_in_month y month) in
    if ltb day (days_in_month y month) then (month, suc day) else later

-- The fields of a `datetime`. A year has 366 days at most, so the search for it begins at or before
-- it, and 32 years before at most.
unfoldable pub civil_at : ℕ → Civil
unfolding year_from month_from days_before_year
civil_at micros =
    let day = micros / micros_per_day in
    let rest = micros % micros_per_day in
    let y = year_from 32 day (day / 366 + 1) in
    let m = month_from 11 y 1 (day - days_before_year y) in
    record {
      year = y;
      month = m.0;
      day = m.1;
      hour = rest / 3600000000;
      minute = rest / 60000000 % 60;
      second = rest / 1000000 % 60;
      micro = rest % 1000000;
    }

unfoldable pub format_utc : ℕ → String
unfolding civil_at decimal
format_utc micros =
    let c = civil_at micros in
    padded 4 c.year
    <> ("-"
        <> (padded 2 c.month
            <> ("-"
                <> (padded 2 c.day
                    <> ("T"
                        <> (padded 2 c.hour
                            <> (":"
                                <> (padded 2 c.minute
                                    <> (":"
                                        <> (padded 2 c.second
                                            <> ("." <> (padded 6 c.micro <> "Z"))))))))))))
