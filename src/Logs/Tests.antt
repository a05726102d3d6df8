-- ===== src/Logs/Tests.antt =====
-- A log of two records out of three.
use home_inference_server.Prelude.{ℕ, ◌≤◌, none, some, [], ◌∷◌, String, length, ◌≡◌, refl, arith}
use home_inference_server.Prelude.Int.{pos, negsuc}
use home_inference_server.Logs.{
  Record, Buffer, new_buffer, trim_age, add, query, handle_logs, window, record_limit,
}
use home_inference_server.Logs.Retained.{fresh, logged, Shows, handle_logs-Shows}

abbrev line : ℕ → String → String → Record
line time level msg = record { time = time; level = level; msg = msg; event = ""; attrs = [] }

abbrev two : Buffer
two =
    add 20 (line 20 "INFO" "c")
      (add 10 (line 10 "WARN" "b") (add 5 (line 5 "INFO" "a") (new_buffer 2 0)))

abbrev same : String → String
same s = s

-- The oldest has been dropped.
shows_c : handle_logs same 30 "INFO" "" none none two ≡ line 20 "INFO" "c" ∷ []
unfolding handle_logs query add trim_age new_buffer record_limit window
shows_c = refl

-- A window that is negative or too long, and a limit that is too large.
bounds : (window (some (negsuc 4)) ≡ 86_400_000_000_000) × (record_limit (some (pos 9_999)) ≡ 2_000)
unfolding window record_limit
bounds = (refl, refl)

handle_logs-Shows_example :
    Shows same 30 "INFO" "" two (handle_logs same 30 "INFO" "" none none two)
    × (length two.records ≤ 2)
unfolding add trim_age new_buffer
handle_logs-Shows_example = handle_logs-Shows {max = 2} {max_age = 0} same 30 "INFO" "" none none (
    logged 20 (line 20 "INFO" "c") (omega arith, (omega arith, tt))
      (logged 10 (line 10 "WARN" "b") (omega arith, tt) (logged 5 (line 5 "INFO" "a") tt fresh)))
