-- ===== src/Record/Temporal.antt =====
-- an_kla/temporal.py. A `datetime` in UTC is the number of microseconds since the first instant of
-- the year 1, which is what `astimezone` and subtraction of `datetime`s go by.
pub mod Format
use an_kla_memory.Base.{ℕ, zero, suc, ◌+◌, ◌-◌, ◌*◌, ◌/◌, ◌%◌, ◌^◌, Bool}
use an_kla_memory.Base.{not, ◌&&◌, ◌||◌, List, [], ◌∷◌, ltb, leb, eqb, if◌then◌else◌}
use an_kla_memory.Base.{Result, ok, err, temporal, raise_if, ◌>>◌, length}
use an_kla_memory.Base.Text.{codes}
use an_kla_memory.Base.Regex.{Regex, cls, seq, alt, rep, range, digit, text, fullmatch}
use an_kla_memory.Json.{Json, str}

infixr 20 ◌then◌
abbrev ◌then◌ : Regex → Regex → Regex
r then s = seq r s

abbrev class : ℕ → ℕ → Regex
class lo hi = cls (range lo hi)

-- `(?:0[0-9]|1[0-3]):[0-5][0-9]|14:00`, the first part as given
abbrev offset_from : Regex → Regex
offset_from hours = alt (hours then text ":" then class b'0' b'5' then digit) (text "14:00")

abbrev hours_to_13 : ℕ → Regex
hours_to_13 lo = alt (text "0" then class lo b'9') (text "1" then class b'0' b'3')

-- No `-00:00`.
abbrev zone_pattern : Regex
zone_pattern = alt (text "Z") (
    alt (text "+" then offset_from (hours_to_13 b'0')) (
      text "-"
      then alt (text "00:" then alt (text "0" then class b'1' b'9') (class b'1' b'5' then digit))
          (offset_from (hours_to_13 b'1'))))

abbrev pub verified_at_pattern : Regex
verified_at_pattern =
    rep 4 4 digit
    then text "-"
    then rep 2 2 digit
    then text "-"
    then rep 2 2 digit
    then text "T"
    then rep 2 2 digit
    then text ":"
    then rep 2 2 digit
    then text ":"
    then rep 2 2 digit
    then rep 0 1 (text "." then rep 1 6 digit)
    then zone_pattern

abbrev take : ℕ → List ℕ → List ℕ
take zero s = []
take (suc n) [] = []
take (suc n) (c ∷ s) = c ∷ take n s

abbrev drop : ℕ → List ℕ → List ℕ
drop zero s = s
drop (suc n) [] = []
drop (suc n) (c ∷ s) = drop n s

-- The number that decimal digits stand for, after the digits read so far.
abbrev number_from : ℕ → List ℕ → ℕ
number_from acc [] = acc
number_from acc (c ∷ s) = number_from (acc * 10 + (c - b'0')) s

abbrev number_at : ℕ → ℕ → List ℕ → ℕ
number_at start width s = number_from 0 (take width (drop start s))

-- The digits after the point, `ljust(6, "0")`.
abbrev fraction_digits : List ℕ → List ℕ
fraction_digits [] = []
fraction_digits (c ∷ s) = if range b'0' b'9' c then c ∷ fraction_digits s else []

abbrev microseconds : List ℕ → ℕ
microseconds [] = 0
microseconds (c ∷ s) =
    let ds = fraction_digits s in if eqb c b'.' then number_from 0 ds * 10 ^ (6 - length ds) else 0

-- What stands behind the seconds and the fraction.
abbrev zone_part : List ℕ → List ℕ
zone_part [] = []
zone_part (c ∷ s) = if eqb c b'.' then drop (length (fraction_digits s)) s else c ∷ s

-- The proleptic Gregorian calendar of `datetime`.
unfoldable pub is_leap : ℕ → Bool
is_leap y = eqb (y % 4) 0 && (not (eqb (y % 100) 0) || eqb (y % 400) 0)

unfoldable pub days_before_year : ℕ → ℕ
days_before_year y = let p = y - 1 in p * 365 + p / 4 - p / 100 + p / 400

unfoldable pub days_in_month : ℕ → ℕ → ℕ
unfolding is_leap
days_in_month y m =
    if eqb m 2
    then (if is_leap y then 29 else 28)
    else if eqb m 4 || eqb m 6 || eqb m 9 || eqb m 11
    then 30
    else 31

-- The days of the months 1 to `m`.
unfoldable pub days_through : ℕ → ℕ → ℕ
unfolding days_in_month
days_through y zero = 0
days_through y (suc m) = days_through y m + days_in_month y (suc m)

pub record Civil : Type 0 where
  pub year : ℕ
  pub month : ℕ
  pub day : ℕ
  pub hour : ℕ
  pub minute : ℕ
  pub second : ℕ
  pub micro : ℕ

-- The values that the constructor of `datetime` accepts.
unfoldable pub is_valid_civil : Civil → Bool
unfolding days_in_month
is_valid_civil c =
    leb 1 c.year
    && leb c.year 9999
    && (leb 1 c.month && leb c.month 12)
    && (leb 1 c.day && leb c.day (days_in_month c.year c.month))
    && (ltb c.hour 24 && ltb c.minute 60 && ltb c.second 60)

abbrev pub micros_per_day : ℕ
micros_per_day = 86400000000

unfoldable pub local_micros : Civil → ℕ
unfolding days_before_year days_through
local_micros c =
    (days_before_year c.year + days_through c.year (c.month - 1) + (c.day - 1)) * micros_per_day
    + ((c.hour * 60 + c.minute) * 60 + c.second) * 1000000
    + c.micro

-- `datetime.max` is the last microsecond of the year 9999.
abbrev pub end_of_time : ℕ
end_of_time = 3652059 * micros_per_day

-- The offset in microseconds of `+hh:mm` or `-hh:mm`.
abbrev offset_micros : List ℕ → ℕ
offset_micros s = (number_at 1 2 s * 60 + number_at 4 2 s) * 60000000

-- `astimezone(timezone.utc)`, which overflows outside the years 1 to 9999.
unfoldable pub to_utc : ℕ → List ℕ → Result ℕ
to_utc local [] = ok local
to_utc local (sign ∷ s) =
    let off = offset_micros (sign ∷ s) in
    if eqb sign b'Z'
    then ok local
    else if eqb sign b'+'
    then (if ltb local off then err (temporal "unrepresentable_verified_at") else ok (local - off))
    else if ltb (local + off) end_of_time
    then ok (local + off)
    else err (temporal "unrepresentable_verified_at")

-- The fields that `fromisoformat` reads off a text of the pattern.
abbrev pub civil_of : List ℕ → Civil
civil_of s = record {
  year = number_at 0 4 s;
  month = number_at 5 2 s;
  day = number_at 8 2 s;
  hour = number_at 11 2 s;
  minute = number_at 14 2 s;
  second = number_at 17 2 s;
  micro = microseconds (drop 19 s);
}

unfoldable pub parse_verified_at : Json → Result ℕ
unfolding fullmatch is_valid_civil local_micros to_utc
parse_verified_at (str t) =
    raise_if (not (fullmatch verified_at_pattern t)) (temporal "unparseable_verified_at")
    >> raise_if (not (is_valid_civil (civil_of (codes t)))) (temporal "unparseable_verified_at")
    >> to_utc (local_micros (civil_of (codes t))) (zone_part (drop 19 (codes t)))
parse_verified_at _ = err (temporal "unparseable_verified_at")
