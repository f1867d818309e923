-- ===== src/Logging/Tests.antt =====
-- logging.rs: a log with a buffer of two, and a clean-up.
use miwidothttp.Prelude.{
  ℕ, ◌+◌, ◌≡◌, refl, Bool, true, false, Option, none, some, List, [], ◌∷◌, String, ◌=?◌, nat_eq,
}
use miwidothttp.Logging.{
  LogConfig, LogManager, Formats, AccessLogEntry, common, new, default_config, cleanup_old_logs,
  format_access_log, is_backup,
}
use miwidothttp.Logging.Buffer.{Event, access, tick, accesses, run, Holds, run-new}
use miwidothttp.Logging.Interleaving.{
  Log, Reach, begins, pushes, takes, count, count_all, Reach-count,
}

abbrev formats : Formats
formats = record {
  clf_time = λ time. "now";
  to_rfc3339 = λ time. "now";
  access_json = λ entry. none;
  error_json = λ entry. none;
}

abbrev entry : AccessLogEntry
entry = record {
  timestamp = 0;
  remote_addr = "::1";
  method = "GET";
  path = "/";
  status = 200;
  response_time_ms = 3;
  bytes_sent = 12;
  user_agent = none;
  referer = none;
  request_id = "r";
}

format_run : format_access_log formats common entry ≡ "::1 - - [now] \"GET /\" 200 12"
unfolding format_access_log
format_run = refl

-- A backup of 2026 is none for the clean-up.
is_backup_2026 : is_backup "access" "access.20260101_000000.gz" ≡ false
unfolding is_backup
is_backup_2026 = refl

abbrev no_fault : String → Bool
no_fault text = false

abbrev opens : String → Option (List String)
opens path = some ("old" ∷ [])

-- The default, but for the rotation.
abbrev unrotated : LogConfig
unrotated = record default_config {
  rotation = record (default_config.rotation) { enabled = false };
}

abbrev fresh : LogManager
fresh = record {
  config = unrotated;
  access_writer = some ("old" ∷ []);
  error_writer = some ("old" ∷ []);
  access_buffer = [];
  error_buffer = [];
}

made : new opens unrotated ≡ some fresh
unfolding new
made = refl

abbrev events : List Event
events = access entry ∷ tick ∷ access entry ∷ []

run-new_example :
    Holds formats no_fault unrotated
      ("old" ∷ [])
      (accesses events)
      (run formats no_fault events fresh)
run-new_example =
    run-new formats no_fault opens unrotated ("old" ∷ []) fresh events refl refl refl made

abbrev one_taken : Log ℕ
one_taken = record { buffer = 8 ∷ []; taken = (7 ∷ []) ∷ []; file = []; lost = [] }

abbrev is_seven : ℕ → Bool
is_seven n = n =? 7

reached : Reach (7 ∷ 8 ∷ []) one_taken
reached = pushes (takes (pushes begins 7) (λ e. cc)) 8

Reach-count_example :
    count is_seven (7 ∷ 8 ∷ [])
    ≡ count is_seven one_taken.file
      + count is_seven one_taken.lost
      + count_all is_seven one_taken.taken
      + count is_seven one_taken.buffer
Reach-count_example = Reach-count is_seven reached

abbrev listing : List (String × Option ℕ)
listing =
    ("access.20250102_000000.gz", some 2)
    ∷ ("access.20250101_000000.gz", some 1)
    ∷ ("access.log", some 9)
    ∷ []

abbrev all : String → Bool
all name = true

cleanup_run :
    cleanup_old_logs all "access" (record (default_config.rotation) { max_backups = 1 }) listing
    ≡ (("access.20250101_000000.gz", 1) ∷ [], ("access.20250102_000000.gz", 2) ∷ [])
unfolding cleanup_old_logs
cleanup_run = refl
