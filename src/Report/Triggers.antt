-- ===== src/Report/Triggers.antt =====
-- internal/report/report.go: the bytes of a bit set of triggers.
use go_upf.Base.{ℕ, ◌^◌, ◌<◌, ◌≡◌, ap, some, arith}
use go_upf.Report.{unmarshal_triggers, trigger_bytes}

-- The three bytes that a bit set of 24 bits is written as are read back to it.
pub unmarshal_triggers-bytes :
    (flags : ℕ) → flags < 2 ^ 24 → unmarshal_triggers (trigger_bytes flags) ≡ some flags
unfolding unmarshal_triggers trigger_bytes
unmarshal_triggers-bytes flags h = ap some (omega arith)
