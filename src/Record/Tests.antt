-- ===== src/Record/Tests.antt =====
-- Runs of the readers of a record.
use an_kla_memory.Base.{◌≡◌, refl, ok, err, temporal, false}
use an_kla_memory.Json.{str, field, end, arr, nil}
use an_kla_memory.Base.{◌+◌, ◌*◌, ◌≤◌, ◌↔◌, List, [], ◌∷◌, length}
use an_kla_memory.Base.Int.{pos}
use an_kla_memory.Json.{Fields, num}
use an_kla_memory.Record.Freshness.{summarize_freshness, summarize_freshness-partition}
use an_kla_memory.Record.Freshness.{subtract, compute_freshness}
use an_kla_memory.Record.Ages.{IsAged, compute_freshness-ages}
use an_kla_memory.Base.{some, true}
use an_kla_memory.Base.Int.{negsuc}
use an_kla_memory.Json.{get, bool}
use an_kla_memory.Record.Vigency.{is_active}
use an_kla_memory.Record.SubjectRef.{parse_subject_ref}
use an_kla_memory.Record.Temporal.{parse_verified_at}

-- 2024-02-29 is day 738,944 from the year 1, counted from 0.
leap_day : parse_verified_at (str "2024-02-29T00:00:00.5-01:30") ≡ ok 63844767000500000
unfolding parse_verified_at
leap_day = refl

not_leap : parse_verified_at (str "2023-02-29T00:00:00Z") ≡ err (temporal "unparseable_verified_at")
unfolding parse_verified_at
not_leap = refl

too_early :
    parse_verified_at (str "0001-01-01T00:00:00+00:01")
    ≡ err (temporal "unrepresentable_verified_at")
unfolding parse_verified_at
too_early = refl

unknown_offset :
    parse_verified_at (str "2024-02-28T00:00:00-00:00") ≡ err (temporal "unparseable_verified_at")
unfolding parse_verified_at
unknown_offset = refl

one_subject :
    parse_subject_ref (str "an-kla:subject:v1:doc:p-0123456789abcdef0123456789abcdef:a.b")
    ≡ ok (record { kind = "doc"; namespace = "p-0123456789abcdef0123456789abcdef"; id = "a.b" })
unfolding parse_subject_ref
one_subject = refl

unhashable_status : is_active (field "status" (arr nil) end) ≡ false
unfolding is_active
unhashable_status = refl

abbrev three_items : List Fields
three_items =
    field "freshness_error" (str "unparseable_verified_at") end
    ∷ field "days_since_verified" (num (pos 3)) end
    ∷ end
    ∷ []

three_items_counted :
    ((summarize_freshness three_items).evaluated
        + (summarize_freshness three_items).not_evaluable
        + (summarize_freshness three_items).unparseable
      ≡ length three_items)
    × ((summarize_freshness three_items).stale ≤ (summarize_freshness three_items).evaluated)
three_items_counted = summarize_freshness-partition three_items

abbrev half_past_two : Fields
half_past_two = compute_freshness (str "2024-02-29T00:00:00.5-01:30") 63844983000500000 (some 1)

-- Two days and a half later.
compute_freshness-ages_example :
    ((get half_past_two "days_since_verified" ≡ num (pos 2))
      ↔ IsAged 63844767000500000 2 63844983000500000)
    × ((get half_past_two "days_since_verified" ≡ num (negsuc 1))
        ↔ IsAged 63844983000500000 2 63844767000500000)
    × ((get half_past_two "stale" ≡ bool true)
        ↔ (63844767000500000 + 2 * 86400000000 ≤ 63844983000500000))
compute_freshness-ages_example =
    compute_freshness-ages "2024-02-29T00:00:00.5-01:30" 63844767000500000 63844983000500000 1 1
      leap_day

-- A second before, in days, seconds and microseconds.
second_before : subtract 99 1000099 ≡ record { days = negsuc 0; seconds = 86399; microseconds = 0 }
unfolding subtract
second_before = refl
