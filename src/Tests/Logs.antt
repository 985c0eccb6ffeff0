-- ===== src/Tests/Logs.antt =====
-- A history of `log` and `set_log_level`.
use cpp_systems_playground.Prelude.{ℕ, ◌≡◌, List, [], ◌∷◌, ◌++◌}
use cpp_systems_playground.Logging.{LogLevel, Log, Call, run, admitted, run-admitted}

abbrev empty_log : Log ℕ
empty_log = record { global_log_level = LogLevel.info; lines = [] }

abbrev calls : List (Call ℕ)
calls = Call.say LogLevel.debug 1 ∷ Call.set LogLevel.debug ∷ Call.say LogLevel.debug 2 ∷ []

run-admitted_example :
    (run empty_log calls).lines ≡ empty_log.lines ++ admitted empty_log.global_log_level calls
run-admitted_example = run-admitted empty_log calls
