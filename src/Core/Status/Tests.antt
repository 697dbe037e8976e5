-- ===== src/Core/Status/Tests.antt =====
-- A report at concrete inputs.
use encarno.Base.{ℕ, ◌+◌, ◌*◌, ◌/◌, ◌≡◌, [], ◌∷◌, arith}
use encarno.Core.Status.{Status, new_status, report}
use encarno.Core.Status.Reports.{start_all, counting, report-start_all}

-- To 10 milliseconds.
abbrev round_10_ms : ℕ → ℕ
round_10_ms n = (n + 5_000_000) / 10_000_000 * 10_000_000

abbrev some_status : Status
some_status = record { sleeping = 1; busy = 2; working = 4; waiting = 3; missed = 0; cnt = 0 }

report-start_all_example :
    report round_10_ms some_status some_status some_status some_status
      (start_all (counting new_status 0 0) (12_000_000 ∷ 29_000_000 ∷ []))
    ≡ (
      new_status,
      record { waiting = 3; working = 4; sleeping = 1; busy = 2; lag = 20_000_000; reqs = 2 },
    )
report-start_all_example =
    report-start_all round_10_ms new_status some_status some_status some_status some_status
      (12_000_000 ∷ 29_000_000 ∷ []) (omega arith) (omega arith)
