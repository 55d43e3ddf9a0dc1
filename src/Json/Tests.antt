-- ===== src/Json/Tests.antt =====
-- The traversal of a concrete value.
use an_kla_memory.Base.{◌≡◌, ok, err, if◌then◌else◌, type_error, true}
use an_kla_memory.Json.{Json, arr, obj, cons, nil, field, end, str, bool}
use an_kla_memory.Json.Limits.{visit, size, fits, visit-fits}

abbrev nested : Json
nested = obj (field "a" (arr (cons (bool true) (cons (str "x") nil))) end)

visit-fits_example :
    visit type_error nested 0 0 ≡ (if fits nested then ok (size nested) else err type_error)
visit-fits_example = visit-fits type_error nested
