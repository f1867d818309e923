-- ===== src/Logging.antt =====
-- logging.rs (src/logging.rs): `LogManager`, its buffers and the rotation of its files. A file is the
-- list of the lines written to it since the start; whether a line can be written is the argument
-- `fails`. The crates chrono and serde_json are the record `Formats`, and of the file system the
-- answers of its calls are arguments. In log_error the level is read after the entry was moved into
-- the buffer; it is taken as the entry's. Logging/Interleaving has the flushes of several tasks.
use miwidothttp.Prelude.{
  ℕ, ◌+◌, ◌-◌, ◌*◌, ◌/◌, Bool, true, false, not, ◌&&◌, ◌||◌, Option, none, some, List, [], ◌∷◌,
  ◌++◌, String, append_text, unwrap_or, length, take, drop, retain, map, is_empty, replace,
  contains_text, starts_with, ltb, leb, ◌=?◌, string_eq, if◌then◌else◌, ◌>>=◌,
}
use miwidothttp.Rewrite.{decimal_text}
pub mod Buffer
pub mod Interleaving
pub mod Backups
mod Tests

pub data LogFormat : Type 0 where
  common combined json : LogFormat
  custom : String → LogFormat

pub record AccessLogConfig : Type 0 where
  pub enabled : Bool
  pub path : String
  pub format : LogFormat
  pub buffer_size : ℕ

pub record ErrorLogConfig : Type 0 where
  pub enabled : Bool
  pub path : String
  pub level : String

pub record LogRotationConfig : Type 0 where
  pub enabled : Bool
  pub max_size_mb : ℕ
  pub max_age_days : ℕ
  pub max_backups : ℕ
  pub compress : Bool

pub record LogConfig : Type 0 where
  pub access_log : AccessLogConfig
  pub error_log : ErrorLogConfig
  pub rotation : LogRotationConfig

abbrev pub default_config : LogConfig
default_config = record {
  access_log = record {
    enabled = true;
    path = "logs/access.log";
    format = combined;
    buffer_size = 100;
  };
  error_log = record { enabled = true; path = "logs/error.log"; level = "ERROR" };
  rotation = record {
    enabled = true;
    max_size_mb = 100;
    max_age_days = 30;
    max_backups = 10;
    compress = true;
  };
}

pub record AccessLogEntry : Type 0 where
  pub timestamp : ℕ
  pub remote_addr : String
  pub method : String
  pub path : String
  pub status : ℕ
  pub response_time_ms : ℕ
  pub bytes_sent : ℕ
  pub user_agent : Option String
  pub referer : Option String
  pub request_id : String

pub record ErrorLogEntry : Type 0 where
  pub timestamp : ℕ
  pub level : String
  pub message : String
  pub request_id : Option String
  pub stack_trace : Option String

pub record Formats : Type 0 where
  pub clf_time : ℕ → String
  pub to_rfc3339 : ℕ → String
  pub access_json : AccessLogEntry → Option String
  pub error_json : ErrorLogEntry → Option String

-- A writer is the lines of its file, where the log is enabled.
pub record LogManager : Type 0 where
  pub config : LogConfig
  pub access_writer : Option (List String)
  pub error_writer : Option (List String)
  pub access_buffer : List AccessLogEntry
  pub error_buffer : List ErrorLogEntry

-- The writer of a log: `opens` says whether its file opens, and the file may hold lines already.
unfoldable pub open_writer :
    (opens : String → Option (List String))
    → (enabled : Bool) (path : String) → Option (Option (List String))
open_writer opens enabled path =
    if enabled then (do lines ← opens path; some (some lines)) else some none

unfoldable pub new : (opens : String → Option (List String)) → LogConfig → Option LogManager
unfolding open_writer
new opens config = do
  access_writer ← open_writer opens config.access_log.enabled config.access_log.path
  error_writer ← open_writer opens config.error_log.enabled config.error_log.path
  some record {
    config = config;
    access_writer = access_writer;
    error_writer = error_writer;
    access_buffer = [];
    error_buffer = [];
  }

-- Words with no space between them.
abbrev pub joined : List String → String
joined [] = ""
joined (word ∷ words) = append_text word (joined words)

unfoldable pub common_line : Formats → AccessLogEntry → String
unfolding decimal_text
common_line f entry = joined (
    entry.remote_addr
    ∷ " - - ["
    ∷ f.clf_time entry.timestamp
    ∷ "] \""
    ∷ entry.method
    ∷ " "
    ∷ entry.path
    ∷ "\" "
    ∷ decimal_text entry.status
    ∷ " "
    ∷ decimal_text entry.bytes_sent
    ∷ [])

unfoldable pub format_access_log : Formats → LogFormat → AccessLogEntry → String
unfolding common_line replace decimal_text
format_access_log f common entry = common_line f entry
format_access_log f combined entry = joined (
    common_line f entry
    ∷ " \""
    ∷ unwrap_or entry.referer "-"
    ∷ "\" \""
    ∷ unwrap_or entry.user_agent "-"
    ∷ "\""
    ∷ [])
format_access_log f json entry = unwrap_or (f.access_json entry) ""
format_access_log f (custom format) entry =
    let remote_addr = replace format "{remote_addr}" entry.remote_addr in
    let timestamp = replace remote_addr "{timestamp}" (f.to_rfc3339 entry.timestamp) in
    let method = replace timestamp "{method}" entry.method in
    let path = replace method "{path}" entry.path in
    let status = replace path "{status}" (decimal_text entry.status) in
    let time = replace status "{response_time}" (decimal_text entry.response_time_ms) in
    let bytes = replace time "{bytes}" (decimal_text entry.bytes_sent) in
    replace bytes "{request_id}" entry.request_id

unfoldable pub format_error_log : Formats → ErrorLogEntry → String
format_error_log f entry =
    unwrap_or (f.error_json entry) (
      joined ("[" ∷ f.to_rfc3339 entry.timestamp ∷ "] " ∷ entry.level ∷ " - " ∷ entry.message ∷ []))

-- The loop over the entries of a flush; a line that cannot be written is passed over.
unfoldable pub write_lines :
    {Entry : Type 0} (line : Entry → String) (fails : String → Bool)
    → List Entry
    → List String
    → List String
write_lines line fails [] lines = lines
write_lines line fails (entry ∷ entries) lines =
    write_lines line fails entries (if fails (line entry) then lines else lines ++ line entry ∷ [])

abbrev pub write_to :
    {Entry : Type 0} (line : Entry → String) (fails : String → Bool)
    → List Entry
    → Option (List String)
    → Option (List String)
write_to line fails entries none = none
write_to line fails entries (some lines) = some (write_lines line fails entries lines)

-- `flush_access_logs` under the lock of the buffer: what is left, and the entries that are taken.
abbrev pub take_access : LogManager → LogManager × List AccessLogEntry
take_access m = (record m { access_buffer = [] }, m.access_buffer)

module _ (f : Formats) (fails : String → Bool) where
  -- The same under the lock of the writer, which is asked for when the buffer's has been given back.
  abbrev pub write_access : List AccessLogEntry → LogManager → LogManager
  write_access entries m = record m {
    access_writer =
        write_to (format_access_log f m.config.access_log.format) fails entries m.access_writer;
  }

  -- Both, with no other call between them.
  unfoldable pub flush_access_logs : LogManager → LogManager
  unfolding format_access_log write_lines
  flush_access_logs m =
      let (left, entries) = take_access m in
      if is_empty m.access_buffer then m else write_access entries left

  unfoldable pub flush_error_logs : LogManager → LogManager
  unfolding format_error_log write_lines
  flush_error_logs m = if is_empty m.error_buffer then m else record m {
    error_buffer = [];
    error_writer = write_to (format_error_log f) fails m.error_buffer m.error_writer;
  }

  unfoldable pub log_access : AccessLogEntry → LogManager → LogManager
  unfolding flush_access_logs
  log_access entry m =
      let pushed = record m { access_buffer = m.access_buffer ++ entry ∷ [] } in
      if not m.config.access_log.enabled
      then m
      else if leb m.config.access_log.buffer_size (length pushed.access_buffer)
      then flush_access_logs pushed
      else pushed

  unfoldable pub log_error : ErrorLogEntry → LogManager → LogManager
  unfolding flush_error_logs
  log_error entry m =
      let pushed = record m { error_buffer = m.error_buffer ++ entry ∷ [] } in
      if not m.config.error_log.enabled
      then m
      else if entry.level =? "ERROR" || entry.level =? "FATAL"
      then flush_error_logs pushed
      else pushed

  -- A tick of the task that `start_flush_task` spawns.
  unfoldable pub flush_tick : LogManager → LogManager
  unfolding flush_access_logs flush_error_logs
  flush_tick m = flush_error_logs (flush_access_logs m)

-- `sort_by_key` on the times, which keeps the order of equal ones.
unfoldable pub insert_by_time : String × ℕ → List (String × ℕ) → List (String × ℕ)
insert_by_time file [] = file ∷ []
insert_by_time file (other ∷ files) =
    let rest = insert_by_time file files in
    if leb file.1 other.1 then file ∷ (other ∷ files) else other ∷ rest

unfoldable pub sort_by_time : List (String × ℕ) → List (String × ℕ)
unfolding insert_by_time
sort_by_time [] = []
sort_by_time (file ∷ files) = insert_by_time file (sort_by_time files)

-- The names that count as backups of a log.
unfoldable pub is_backup : (base_name : String) → String → Bool
is_backup base_name name =
    starts_with name base_name && (contains_text name ".2025" || contains_text name ".2024")

-- The rotated files of a directory, of which each has a time or none that can be read.
unfoldable pub rotated_files : (base_name : String) → List (String × Option ℕ) → List (String × ℕ)
unfolding is_backup
rotated_files base_name [] = []
rotated_files base_name ((name, none) ∷ entries) = rotated_files base_name entries
rotated_files base_name ((name, some time) ∷ entries) =
    let rest = rotated_files base_name entries in
    if is_backup base_name name then (name, time) ∷ rest else rest

-- The loop that removes the oldest files: what it has removed and what it leaves. It stops where a file
-- cannot be removed.
unfoldable pub remove_oldest :
    (removable : String → Bool) (max_backups : ℕ)
    → List (String × ℕ)
    → List (String × ℕ) × List (String × ℕ)
remove_oldest removable max_backups [] = ([], [])
remove_oldest removable max_backups (file ∷ files) =
    let rest = remove_oldest removable max_backups files in
    if ltb max_backups (length (file ∷ files)) && removable file.0
    then (file ∷ rest.0, rest.1)
    else ([], file ∷ files)

unfoldable pub cleanup_old_logs :
    (removable : String → Bool) (base_name : String)
    → LogRotationConfig
    → List (String × Option ℕ)
    → List (String × ℕ) × List (String × ℕ)
unfolding sort_by_time rotated_files remove_oldest
cleanup_old_logs removable base_name config entries =
    remove_oldest removable config.max_backups (sort_by_time (rotated_files base_name entries))

-- Whether a file of a size in bytes is rotated.
unfoldable pub needs_rotation : LogRotationConfig → ℕ → Bool
needs_rotation config size = leb config.max_size_mb (size / (1024 * 1024))
