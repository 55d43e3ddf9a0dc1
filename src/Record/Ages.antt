-- ===== src/Record/Ages.antt =====
-- The age that `compute_freshness` (an_kla/temporal.py) gives a record, and when it says it is stale.
use an_kla_memory.Base.{ℕ, suc, zero, ◌+◌, ◌-◌, ◌*◌, ◌/◌, ◌%◌, ◌≤◌, ◌<◌, ◌≡◌, refl, ap}
use an_kla_memory.Base.{String, Bool, true, false, some, ltb, if◌then◌else◌, arith}
use an_kla_memory.Base.{ok, inl, inr, Bool-cases, ◌↔◌}
use an_kla_memory.Base.Int.{pos, negsuc}
use an_kla_memory.Json.{bool, num, str, get, field, end}
use an_kla_memory.Record.Temporal.{parse_verified_at}
use an_kla_memory.Record.Freshness.{neg, times, plus, micros_of, subtract}
use an_kla_memory.Record.Freshness.{days_between, exceeds, compute_freshness}

-- The parts of a delta that is not negative come to it again.
parts_past :
    (n : ℕ) → (n / 86400000000 * 86400 + n % 86400000000 / 1000000) * 1000000 + n % 1000000 ≡ n
parts_past n = omega arith

parts_future :
    (m k r : ℕ)
    → (suc m) ≤ suc k * 86400000000
    → suc k * 86400000000 - suc m ≡ r
    → r < 86400000000
    → plus (times (plus (times (negsuc k) 86400) (r / 1000000)) 1000000) (r % 1000000) ≡ negsuc m
parts_future m k r h e small =
    let first : ltb (suc k * 86400 - 1) (r / 1000000) ≡ false = ground arith in
    let second : ltb (suc (suc k * 86400 - 1 - r / 1000000) * 1000000 - 1) (r % 1000000) ≡ false =
      ground arith in
    rw (first, second) (ap negsuc (omega arith))

micros_past :
    (verified now : ℕ)
    → ltb now verified ≡ false
    → micros_of (subtract now verified) ≡ pos (now - verified)
unfolding subtract
micros_past verified now h = rw h (ap pos (parts_past (now - verified)))

later_by : (verified now : ℕ) → ltb now verified ≡ true → (m : ℕ) × (verified - now ≡ suc m)
later_by verified now h = (verified - now - 1, ground arith)

less_one : (m : ℕ) → suc m - 1 ≡ m
less_one m = omega arith

micros_future :
    (verified now m : ℕ)
    → ltb now verified ≡ true
    → verified - now ≡ suc m
    → micros_of (subtract now verified) ≡ negsuc m
unfolding subtract
micros_future verified now m h e =
    rw (h, e, less_one m) (parts_future m (m / 86400000000) _ (omega arith) refl (omega arith))

-- Complete days since, and complete days until.
days_past :
    (verified now : ℕ)
    → ltb now verified ≡ false
    → days_between verified now ≡ pos ((now - verified) / 86400000000)
unfolding days_between
days_past verified now h = rw (micros_past verified now h) refl

days_future :
    (verified now : ℕ)
    → ltb now verified ≡ true
    → days_between verified now ≡ neg ((verified - now) / 86400000000)
unfolding days_between
days_future verified now h =
    let (m, e) = later_by verified now h in rw (micros_future verified now m h e, e) refl

pos-injective : (m n : ℕ) → num (pos m) ≡ num (pos n) → m ≡ n
pos-injective m n h = cc h

neg-pos : (n days : ℕ) → num (neg n) ≡ num (pos (suc days)) → ⊥
neg-pos zero days h = cc h
neg-pos (suc n) days h = cc h

neg-negsuc : (n days : ℕ) → (num (neg n) ≡ num (negsuc days)) ↔ (n ≡ suc days)
neg-negsuc zero days = (λ h. cc h, λ h. cc h)
neg-negsuc (suc n) days = (λ h. cc h, λ h. cc h)

-- A record is `days` complete days old.
abbrev pub IsAged : ℕ → ℕ → ℕ → Type 0
IsAged earlier days later =
    (earlier + days * 86400000000 ≤ later) × (later < earlier + suc days * 86400000000)

quotient_days :
    (earlier later days : ℕ)
    → ((later - earlier) / 86400000000 ≡ suc days) ↔ IsAged earlier (suc days) later
quotient_days earlier later days = (λ h. (omega arith, omega arith), λ h. omega arith)

past_days :
    (verified now days : ℕ)
    → (num (days_between verified now) ≡ num (pos (suc days))) ↔ IsAged verified (suc days) now
past_days verified now days = elim (Bool-cases (ltb now verified)) [
  | inl future ↦
      rw (days_future verified now future) (λ h. absurd (neg-pos _ days h), λ h. ground arith)
  | inr past ↦ rw (days_past verified now past) (
    (λ h. (quotient_days verified now days).0 (pos-injective _ (suc days) h)),
    (λ h. ap (λ n. num (pos n)) ((quotient_days verified now days).1 h)),
  )
]

future_days :
    (verified now days : ℕ)
    → (num (days_between verified now) ≡ num (negsuc days)) ↔ IsAged now (suc days) verified
future_days verified now days = elim (Bool-cases (ltb now verified)) [
  | inl future ↦ rw (days_future verified now future) (
    (λ h. (quotient_days now verified days).0 ((neg-negsuc _ days).0 h)),
    (λ h. (neg-negsuc _ days).1 ((quotient_days now verified days).1 h)),
  )
  | inr past ↦ rw (days_past verified now past) (λ h. cc h, λ h. ground arith)
]

exceeds-neg : (n threshold : ℕ) → exceeds (neg n) (some threshold) ≡ false
exceeds-neg zero threshold = ground arith
exceeds-neg (suc n) threshold = refl

stale_days :
    (verified now threshold : ℕ)
    → (exceeds (days_between verified now) (some threshold) ≡ true)
      ↔ (verified + suc threshold * 86400000000 ≤ now)
stale_days verified now threshold = elim (Bool-cases (ltb now verified)) [
  | inl future ↦
      rw (days_future verified now future, exceeds-neg _ threshold) (λ h. cc h, λ h. ground arith)
  | inr past ↦ rw (days_past verified now past) (λ h. ground arith, λ h. ground arith)
]

stale_flag :
    (b : Bool)
    → (get (if b then field "stale" (bool true) end else end) "stale" ≡ bool true) ↔ (b ≡ true)
stale_flag true = (λ h. refl, λ h. refl)
stale_flag false = (λ h. cc h, λ h. cc h)

-- For a record whose `verified_at` can be read: the age is n days, n ≥ 1, exactly when that many
-- times 86,400,000,000 microseconds have gone by since the verification, and not one time more; it
-- is -n days exactly when the verification is as far in the future; and the record is said to be
-- stale exactly when one day more than the threshold has gone by.
pub compute_freshness-ages :
    (text : String) (verified now threshold days : ℕ)
    → parse_verified_at (str text) ≡ ok verified
    → let item = compute_freshness (str text) now (some threshold) in
      ((get item "days_since_verified" ≡ num (pos (suc days))) ↔ IsAged verified (suc days) now)
      × ((get item "days_since_verified" ≡ num (negsuc days)) ↔ IsAged now (suc days) verified)
      × ((get item "stale" ≡ bool true) ↔ (verified + suc threshold * 86400000000 ≤ now))
unfolding compute_freshness
compute_freshness-ages text verified now threshold days h =
    let flag = stale_flag (exceeds (days_between verified now) (some threshold)) in
    let late = stale_days verified now threshold in
    rw (get, h)
      (
        past_days verified now days,
        future_days verified now days,
        ((λ e. late.0 (flag.0 e)), (λ k. flag.1 (late.1 k))),
      )
