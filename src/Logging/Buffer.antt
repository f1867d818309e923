-- ===== src/Logging/Buffer.antt =====
-- logging.rs: what the access log holds, where one flush ends before the next begins.
use miwidothttp.Prelude.{
  ◌-◌, ◌≤◌, ◌≡◌, refl, sym, ap, ◌∙◌, subst, Bool, true, false, not, Option, some, List, [], ◌∷◌,
  ◌++◌, String, length, map, retain, retain-append, is_empty, leb, Bool-cases, inl, inr,
  append_assoc, append-nil, if◌then◌else◌, arith, ◌||◌, ◌=?◌, string_eq,
}
use mathlib.Core.List.{map-append}
use miwidothttp.Logging.{
  LogConfig, LogManager, Formats, AccessLogEntry, ErrorLogEntry, new, open_writer,
  format_access_log, write_lines, flush_access_logs, flush_error_logs, log_access, log_error,
  flush_tick,
}

-- What a log manager is told, one thing after another.
pub data Event : Type 0 where
  access : AccessLogEntry → Event
  error : ErrorLogEntry → Event
  tick : Event

abbrev pub accesses : List Event → List AccessLogEntry
accesses [] = []
accesses (access entry ∷ events) = entry ∷ accesses events
accesses (error entry ∷ events) = accesses events
accesses (tick ∷ events) = accesses events

module _ (f : Formats) (fails : String → Bool) where
  unfoldable pub after : Event → LogManager → LogManager
  after (access entry) m = log_access f fails entry m
  after (error entry) m = log_error f fails entry m
  after tick m = flush_tick f fails m

  unfoldable pub run : List Event → LogManager → LogManager
  unfolding after
  run [] m = m
  run (event ∷ events) m = run events (after event m)

  -- The lines of entries that can be written.
  abbrev pub writable : {Entry : Type 0} → (Entry → String) → List Entry → List String
  writable line entries = retain (λ text. not (fails text)) (map line entries)

  write_lines_lem :
      {Entry : Type 0} (line : Entry → String) (entries : List Entry) (lines : List String)
      → write_lines line fails entries lines ≡ lines ++ writable line entries
  unfolding write_lines
  write_lines_lem line [] lines = sym (append-nil lines)
  write_lines_lem line (entry ∷ entries) lines = elim (Bool-cases (fails (line entry))) [
    | inl bad ↦ rw bad (write_lines_lem line entries lines)
    | inr good ↦ rw good (
        write_lines_lem line entries (lines ++ line entry ∷ [])
        ∙ append_assoc lines (line entry ∷ []) (writable line entries))
  ]

  writable-append :
      {Entry : Type 0} (line : Entry → String) (xs ys : List Entry)
      → writable line (xs ++ ys) ≡ writable line xs ++ writable line ys
  writable-append line xs ys =
      ap (retain (λ text. not (fails text))) (map-append line xs ys)
      ∙ retain-append (λ text. not (fails text)) (map line xs) (map line ys)

  with_entry : AccessLogEntry → LogManager → LogManager
  with_entry entry m = record m { access_buffer = m.access_buffer ++ entry ∷ [] }

  module _ (entry : AccessLogEntry) (m : LogManager) (on : m.config.access_log.enabled ≡ true) where
    log_access-full :
        leb m.config.access_log.buffer_size (length (m.access_buffer ++ entry ∷ [])) ≡ true
        → log_access f fails entry m ≡ flush_access_logs f fails (with_entry entry m)
    unfolding log_access with_entry
    log_access-full full = ground (arith, on, full)

    log_access-room :
        leb m.config.access_log.buffer_size (length (m.access_buffer ++ entry ∷ [])) ≡ false
        → log_access f fails entry m ≡ with_entry entry m
    unfolding log_access with_entry
    log_access-room room = ground (arith, on, room)

  -- The file and the buffer hold, in their order, the lines of the entries logged so far, and the
  -- buffer is below its size.
  pub record Holds (config : LogConfig) (begun : List String) (entries : List AccessLogEntry)
      (m : LogManager) : Type 0 where
    pub lines : List String
    pub same_config : m.config ≡ config
    pub in_file : m.access_writer ≡ some lines
    pub in_order :
        lines ++ writable (format_access_log f config.access_log.format) m.access_buffer
        ≡ begun ++ writable (format_access_log f config.access_log.format) entries
    pub bounded : length m.access_buffer ≤ config.access_log.buffer_size - 1

  -- Without the bound, which a flush brings back.
  record HoldsAny (config : LogConfig) (begun : List String) (entries : List AccessLogEntry)
      (m : LogManager) : Type 0 where
    lines : List String
    same_config : m.config ≡ config
    in_file : m.access_writer ≡ some lines
    in_order :
        lines ++ writable (format_access_log f config.access_log.format) m.access_buffer
        ≡ begun ++ writable (format_access_log f config.access_log.format) entries

  module _ (config : LogConfig) (begun : List String) where
    flush_access_logs-Holds :
        (entries : List AccessLogEntry) (m : LogManager)
        → HoldsAny config begun entries m
        → Holds config begun entries (flush_access_logs f fails m)
    unfolding flush_access_logs
    flush_access_logs-Holds entries m h =
        let line = format_access_log f config.access_log.format in
        elim (Bool-cases (is_empty m.access_buffer)) [
          | inl empty ↦
              rw (flush_access_logs, empty)
                record {
                  lines = h.lines;
                  same_config = h.same_config;
                  in_file = h.in_file;
                  in_order = h.in_order;
                  bounded = no_length m.access_buffer empty;
                }
          | inr some_held ↦
              rw (flush_access_logs, some_held)
                record {
                  lines = write_lines line fails m.access_buffer h.lines;
                  same_config = h.same_config;
                  in_file = rw (h.same_config, h.in_file) refl;
                  in_order =
                      append-nil (write_lines line fails m.access_buffer h.lines)
                      ∙ write_lines_lem line m.access_buffer h.lines
                      ∙ h.in_order;
                  bounded = omega arith;
                }
        ]
      where
        no_length :
            (xs : List AccessLogEntry)
            → is_empty xs ≡ true
            → length xs ≤ config.access_log.buffer_size - 1
        no_length [] e = omega arith
        no_length (x ∷ xs) e = cc

    flush_error_logs-Holds :
        (entries : List AccessLogEntry) (m : LogManager)
        → Holds config begun entries m
        → Holds config begun entries (flush_error_logs f fails m)
    unfolding flush_error_logs
    flush_error_logs-Holds entries m h = elim (Bool-cases (is_empty m.error_buffer)) [
      | inl empty ↦ rw (flush_error_logs, empty) h
      | inr some_held ↦ rw (flush_error_logs, some_held) (other_errors m _ _ h)
    ]
      where
        other_errors :
            (n : LogManager) (buffer : List ErrorLogEntry) (writer : Option (List String))
            → Holds config begun entries n
            → Holds config begun entries (record n { error_buffer = buffer; error_writer = writer })
        other_errors n buffer writer k = record {
          lines = k.lines;
          same_config = k.same_config;
          in_file = k.in_file;
          in_order = k.in_order;
          bounded = k.bounded;
        }

    log_access-Holds :
        (entries : List AccessLogEntry) (entry : AccessLogEntry) (m : LogManager)
        → config.access_log.enabled ≡ true
        → Holds config begun entries m
        → Holds config begun (entries ++ entry ∷ []) (log_access f fails entry m)
    unfolding with_entry
    log_access-Holds entries entry m on h =
        let line = format_access_log f config.access_log.format in
        let held = m.access_buffer ++ entry ∷ [] in
        let enabled : m.config.access_log.enabled ≡ true =
          ap (λ c. c.access_log.enabled) h.same_config ∙ on in
        let in_order : h.lines ++ writable line held
            ≡ begun ++ writable line (entries ++ entry ∷ []) =
          ap (λ t. h.lines ++ t) (writable-append line m.access_buffer (entry ∷ []))
          ∙ sym (append_assoc h.lines (writable line m.access_buffer) (writable line (entry ∷ [])))
          ∙ ap (λ t. t ++ writable line (entry ∷ [])) h.in_order
          ∙ append_assoc begun (writable line entries) (writable line (entry ∷ []))
          ∙ ap (λ t. begun ++ t) (sym (writable-append line entries (entry ∷ []))) in
        elim (Bool-cases (leb m.config.access_log.buffer_size (length held))) [
          | inl full ↦
              subst (Holds config begun (entries ++ entry ∷ []))
                (sym (log_access-full entry m enabled full))
                (flush_access_logs-Holds (entries ++ entry ∷ []) (with_entry entry m) record {
                  lines = h.lines;
                  same_config = h.same_config;
                  in_file = h.in_file;
                  in_order = in_order;
                })
          | inr room ↦
              subst (Holds config begun (entries ++ entry ∷ []))
                (sym (log_access-room entry m enabled room))
                record {
                  lines = h.lines;
                  same_config = h.same_config;
                  in_file = h.in_file;
                  in_order = in_order;
                  bounded = ground (arith, room, ap (λ c. c.access_log.buffer_size) h.same_config);
                }
        ]

    log_error-Holds :
        (entries : List AccessLogEntry) (entry : ErrorLogEntry) (m : LogManager)
        → Holds config begun entries m
        → Holds config begun entries (log_error f fails entry m)
    unfolding log_error
    log_error-Holds entries entry m h =
        let pushed = record m { error_buffer = m.error_buffer ++ entry ∷ [] } in
        let pushed_Holds : Holds config begun entries pushed = record {
          lines = h.lines;
          same_config = h.same_config;
          in_file = h.in_file;
          in_order = h.in_order;
          bounded = h.bounded;
        } in
        either (not m.config.error_log.enabled) h (
          either (entry.level =? "ERROR" || entry.level =? "FATAL")
            (flush_error_logs-Holds entries pushed pushed_Holds) pushed_Holds)
      where
        either :
            (test : Bool) {n k : LogManager}
            → Holds config begun entries n
            → Holds config begun entries k
            → Holds config begun entries (if test then n else k)
        either true p q = p
        either false p q = q

    run-Holds :
        (events : List Event) (entries : List AccessLogEntry) (m : LogManager)
        → config.access_log.enabled ≡ true
        → Holds config begun entries m
        → Holds config begun (entries ++ accesses events) (run events m)
    unfolding run after flush_tick
    run-Holds [] entries m on h = rw (append-nil entries) h
    run-Holds (access entry ∷ events) entries m on h =
        subst (λ es. Holds config begun es (run events (log_access f fails entry m)))
          (append_assoc entries (entry ∷ []) (accesses events))
          (run-Holds events (entries ++ entry ∷ []) (log_access f fails entry m) on
            (log_access-Holds entries entry m on h))
    run-Holds (error entry ∷ events) entries m on h =
        run-Holds events entries (log_error f fails entry m) on (log_error-Holds entries entry m h)
    run-Holds (tick ∷ events) entries m on h = run-Holds events entries (flush_tick f fails m) on (
        flush_error_logs-Holds entries (flush_access_logs f fails m)
          (flush_access_logs-Holds entries m (any_of h)))
      where
        any_of : Holds config begun entries m → HoldsAny config begun entries m
        any_of k = record {
          lines = k.lines;
          same_config = k.same_config;
          in_file = k.in_file;
          in_order = k.in_order;
        }

  -- Where a new manager has an access log, of which the file begins with some lines, and rotates no
  -- file, then after any entries and ticks, each of which has ended before the next begins, the file
  -- and behind it the lines of the buffer are those lines and a line for each access logged, in their
  -- order, but for the lines that cannot be written; and the buffer holds fewer entries than its size,
  -- or none where that is 0.
  pub run-new :
      (opens : String → Option (List String)) (config : LogConfig) (begun : List String)
      (m : LogManager) (events : List Event)
      → config.access_log.enabled ≡ true
      → config.rotation.enabled ≡ false
      → opens config.access_log.path ≡ some begun
      → new opens config ≡ some m
      → Holds config begun (accesses events) (run events m)
  unfolding new open_writer
  run-new opens config begun m events on no_rotation opened made =
      run-Holds config begun events [] m on record {
        lines = begun;
        same_config = ground (arith, on, opened, made);
        in_file = ground (arith, on, opened, made);
        in_order =
            ap (λ b. begun ++ writable (format_access_log f config.access_log.format) b) no_entry;
        bounded = omega (arith, ap length no_entry);
      }
    where
      no_entry : m.access_buffer ≡ []
      no_entry = ground (arith, on, opened, made)
