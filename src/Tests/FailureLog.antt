-- ===== src/Tests/FailureLog.antt =====
-- The failure log of servefail.go, with one block that failed twice.
use vidya_god_ipfs.FailureLog.{new_failure_log, broken, note_get}
use vidya_god_ipfs.FailureLog.Bound.{IsLog, new_failure_log-IsLog, note_get-IsLog}

note_get-IsLog_example : IsLog (note_get 100 7 (broken 1) new_failure_log)
note_get-IsLog_example = note_get-IsLog 100 7 (broken 1) new_failure_log new_failure_log-IsLog
