-- ===== src/Record/Freshness.antt =====
-- The freshness projections of an_kla/temporal.py. A `datetime` is its microseconds from the year 1
-- in UTC, as `parse_verified_at` returns it.
use an_kla_memory.Base.{
  ℕ, zero, suc, ◌+◌, ◌-◌, ◌*◌, ◌/◌, ◌%◌, ◌≤◌, ◌≡◌, refl, String, Bool, true, false, not,
}
use an_kla_memory.Base.{Option, none, some, List, [], ◌∷◌, length, ltb, if◌then◌else◌, temporal}
use an_kla_memory.Base.{Result, ok, err, arith, Error, inl, inr, Bool-cases, subst}
use an_kla_memory.Base.Int.{ℤ, pos, negsuc, is_negative}
use an_kla_memory.Json.{Json, Fields, null, bool, num, str, end, field, get, has}
use an_kla_memory.Record.Temporal.{parse_verified_at}

-- `parse_freshness_now`
unfoldable pub parse_freshness_now : Json → Result ℕ
unfolding parse_verified_at
parse_freshness_now text = elim (parse_verified_at text) [
  | ok now ↦ ok now
  | err error ↦ err (temporal "invalid_freshness_now")
]

-- `validate_stale_after_days`, on a JSON value
unfoldable pub validate_stale_after_days : Json → Result (Option ℕ)
validate_stale_after_days null = ok none
validate_stale_after_days (num (pos n)) = ok (some n)
validate_stale_after_days _ = err (temporal "invalid_stale_after_days")

abbrev pub micros_of_day : ℕ
micros_of_day = 86400000000

-- `-n`
abbrev pub neg : ℕ → ℤ
neg zero = pos 0
neg (suc n) = negsuc n

-- `z * n`, for a factor that is not 0
abbrev pub times : ℤ → ℕ → ℤ
times (pos a) n = pos (a * n)
times (negsuc a) n = negsuc (suc a * n - 1)

-- `z + n`
abbrev pub plus : ℤ → ℕ → ℤ
plus (pos a) n = pos (a + n)
plus (negsuc a) n = if ltb a n then pos (n - suc a) else negsuc (a - n)

-- `abs(z)`
abbrev pub magnitude : ℤ → ℕ
magnitude (pos a) = a
magnitude (negsuc a) = suc a

-- A `timedelta`, of which only the days may be negative.
pub record Delta : Type 0 where
  pub days : ℤ
  pub seconds : ℕ
  pub microseconds : ℕ

-- `computed_at - verified`
unfoldable pub subtract : ℕ → ℕ → Delta
subtract now verified =
    if ltb now verified
    then (let started = (verified - now - 1) / 86400000000 in
        let rest = suc started * 86400000000 - (verified - now) in
        record { days = negsuc started; seconds = rest / 1000000; microseconds = rest % 1000000 })
    else record {
      days = pos ((now - verified) / 86400000000);
      seconds = (now - verified) % 86400000000 / 1000000;
      microseconds = (now - verified) % 1000000;
    }

-- `micros`
abbrev pub micros_of : Delta → ℤ
micros_of delta =
    plus (times (plus (times delta.days 86400) delta.seconds) 1000000) delta.microseconds

-- `days`: complete ones, towards zero on both sides.
unfoldable pub days_between : ℕ → ℕ → ℤ
unfolding subtract
days_between verified now =
    let micros = micros_of (subtract now verified) in
    let complete = magnitude micros / micros_of_day in
    if is_negative micros then neg complete else pos complete

abbrev pub exceeds : ℤ → Option ℕ → Bool
exceeds (pos days) (some threshold) = ltb threshold days
exceeds _ _ = false

-- `exc.code`
abbrev code_of : Error → String
code_of (temporal code) = code
code_of _ = ""

-- From a text on; the clock and the threshold were validated.
unfoldable pub compute_freshness : Json → ℕ → Option ℕ → Fields
unfolding parse_verified_at days_between
compute_freshness (str verified_at) now threshold =
    let found = field "verified_at" (str verified_at) in
    elim (parse_verified_at (str verified_at)) [
      | err error ↦ found (field "freshness_error" (str (code_of error)) end)
      | ok verified ↦
          let days = days_between verified now in
          found (
            field "days_since_verified" (num days)
              (if exceeds days threshold then field "stale" (bool true) end else end))
    ]
compute_freshness _ now threshold = end

unfoldable pub project_record_freshness : Fields → ℕ → Option ℕ → Fields
unfolding compute_freshness
project_record_freshness row now threshold = compute_freshness (get row "verified_at") now threshold

pub record Counts : Type 0 where
  pub evaluated : ℕ
  pub not_evaluable : ℕ
  pub unparseable : ℕ
  pub stale : ℕ

abbrev is_null : Json → Bool
is_null null = true
is_null _ = false

abbrev is_true : Json → Bool
is_true (bool b) = b
is_true _ = false

-- One item, by the chain of tests of the loop.
unfoldable pub count_item : Fields → Counts → Counts
count_item item counts =
    if not (is_null (get item "freshness_error"))
    then record counts { unparseable = suc counts.unparseable }
    else if has "days_since_verified" item
    then record counts {
      evaluated = suc counts.evaluated;
      stale = (if is_true (get item "stale") then suc counts.stale else counts.stale);
    }
    else record counts { not_evaluable = suc counts.not_evaluable }

unfoldable pub summarize_from : Counts → List Fields → Counts
unfolding count_item
summarize_from counts [] = counts
summarize_from counts (item ∷ items) = summarize_from (count_item item counts) items

abbrev no_counts : Counts
no_counts = record { evaluated = 0; not_evaluable = 0; unparseable = 0; stale = 0 }

unfoldable pub summarize_freshness : List Fields → Counts
unfolding summarize_from
summarize_freshness items = summarize_from no_counts items

-- The states are exclusive and total, and the stale items are some of the evaluated ones.
record Partition (counts : Counts) (total : ℕ) : Type 0 where
  sum : counts.evaluated + counts.not_evaluable + counts.unparseable ≡ total
  within : counts.stale ≤ counts.evaluated

stale_within :
    (b : Bool) (counts : Counts)
    → counts.stale ≤ counts.evaluated
    → (if b then suc counts.stale else counts.stale) ≤ suc counts.evaluated
stale_within true counts h = omega (arith, h)
stale_within false counts h = omega (arith, h)

count_item-Partition :
    (item : Fields) (counts : Counts) (total : ℕ)
    → Partition counts total
    → Partition (count_item item counts) (suc total)
unfolding count_item
count_item-Partition item counts total p =
    elim (Bool-cases (is_null (get item "freshness_error"))) [
      | inr failed ↦
          rw (failed, count_item) (record { sum = omega (arith, p.sum); within = p.within })
      | inl read ↦ elim (Bool-cases (has "days_since_verified" item)) [
        | inr without ↦
            rw (read, without, count_item)
              (record { sum = omega (arith, p.sum); within = p.within })
        | inl with_days ↦
            rw (read, with_days, count_item)
              (record {
                sum = omega (arith, p.sum);
                within = stale_within (is_true (get item "stale")) counts p.within;
              })
      ]
    ]

summarize_from-Partition :
    (items : List Fields) (counts : Counts) (total : ℕ)
    → Partition counts total
    → Partition (summarize_from counts items) (length items + total)
unfolding summarize_from
summarize_from-Partition [] counts total p = subst (Partition counts) (omega arith) p
summarize_from-Partition (item ∷ items) counts total p =
    subst (Partition (summarize_from (count_item item counts) items)) (omega arith) (
      summarize_from-Partition items (count_item item counts) (suc total)
        (count_item-Partition item counts total p))

-- Every item is counted in exactly one of the three states, and at most the evaluated ones are
-- counted as stale.
pub summarize_freshness-partition :
    (items : List Fields)
    → let counts = summarize_freshness items in
      (counts.evaluated + counts.not_evaluable + counts.unparseable ≡ length items)
      × (counts.stale ≤ counts.evaluated)
unfolding summarize_freshness
summarize_freshness-partition items =
    let p =
      summarize_from-Partition items no_counts 0 (record { sum = refl; within = omega arith }) in
    (omega (arith, p.sum), p.within)
