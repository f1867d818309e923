-- ===== src/Logging/Interleaving.antt =====
-- logging.rs: the flushes of several tasks. A flush takes the entries under the lock of the buffer,
-- gives that back, and then writes them under the lock of the writer; any other steps may lie between.
use miwidothttp.Prelude.{
  ℕ, ◌+◌, ◌≡◌, ◌≢◌, refl, Bool, false, not, List, [], ◌∷◌, ◌++◌, length, length-append, retain,
  retain-append, arith, ap,
}

-- The entries in the buffer, those that each of some tasks has taken and not yet written, those of which
-- the file has the lines, and those whose lines could not be written. Each is in its order.
pub record Log (Entry : Type 0) : Type 0 where
  pub buffer : List Entry
  pub taken : List (List Entry)
  pub file : List Entry
  pub lost : List Entry

abbrev pub no_entry : {Entry : Type 0} → Log Entry
no_entry = record { buffer = []; taken = []; file = []; lost = [] }

-- What logging leads to, by the entries that are logged: a push, the taking of a buffer that is not
-- empty, and the writing of what a task has taken, of which some lines may fail.
pub data Reach {Entry : Type 0} : List Entry → Log Entry → Type 0 where
  begins : Reach [] no_entry
  pushes :
      {entries : List Entry} {log : Log Entry}
      → Reach entries log
      → (entry : Entry)
      → Reach (entries ++ entry ∷ []) (record log { buffer = log.buffer ++ entry ∷ [] })
  takes :
      {entries : List Entry} {log : Log Entry}
      → Reach entries log
      → log.buffer ≢ []
      → Reach entries (record log { buffer = []; taken = log.buffer ∷ log.taken })
  writes :
      {entries : List Entry} {log : Log Entry}
      → Reach entries log
      → (fails : Entry → Bool) (before : List (List Entry)) (batch : List Entry)
        (later : List (List Entry))
      → log.taken ≡ before ++ batch ∷ later
      → Reach entries (record log {
        taken = before ++ later;
        file = log.file ++ retain (λ entry. not (fails entry)) batch;
        lost = log.lost ++ retain fails batch;
      })

module _ {Entry : Type 0} (p : Entry → Bool) where
  -- How many entries of a list pass a test.
  abbrev pub count : List Entry → ℕ
  count entries = length (retain p entries)

  abbrev pub count_all : List (List Entry) → ℕ
  count_all [] = 0
  count_all (batch ∷ batches) = count batch + count_all batches

  count-append : (xs ys : List Entry) → count (xs ++ ys) ≡ count xs + count ys
  count-append xs ys =
      omega (arith, ap length (retain-append p xs ys), length-append (retain p xs) (retain p ys))

  count_all-append :
      (before later : List (List Entry)) (batch : List Entry)
      → count_all (before ++ batch ∷ later) ≡ count batch + count_all (before ++ later)
  count_all-append [] later batch = refl
  count_all-append (b ∷ before) later batch = omega (arith, count_all-append before later batch)

  count-split :
      (fails : Entry → Bool) (batch : List Entry)
      → count (retain (λ entry. not (fails entry)) batch) + count (retain fails batch) ≡ count batch
  count-split fails [] = refl
  count-split fails (entry ∷ batch) = ground (arith, count-split fails batch)

  -- Whatever the tasks and the order of their steps, every entry logged is once in the buffer, with a
  -- task that is to write it, in the file, or lost with a line that could not be written: of each kind
  -- there are as many as were logged.
  pub Reach-count :
      {entries : List Entry} {log : Log Entry}
      → Reach entries log
      → count entries ≡ count log.file + count log.lost + count_all log.taken + count log.buffer
  Reach-count begins = refl
  Reach-count (pushes {entries} {log} r entry) = omega (
    arith,
    Reach-count r,
    count-append entries (entry ∷ []),
    count-append log.buffer (entry ∷ []),
  )
  Reach-count (takes r _) = omega (arith, Reach-count r)
  Reach-count (writes {entries} {log} r fails before batch later e) = omega (
    arith,
    Reach-count r,
    ap count_all e,
    count_all-append before later batch,
    count-append log.file (retain (λ entry. not (fails entry)) batch),
    count-append log.lost (retain fails batch),
    count-split fails batch,
  )

-- Two entries may stand in the file the other way round than they were logged.
pub overtaken :
    {Entry : Type 0} (first second : Entry)
    → (log : Log Entry) × Reach (first ∷ second ∷ []) log × (log.file ≡ second ∷ first ∷ [])
overtaken first second =
    let one = takes (pushes begins first) (λ e. cc) in
    let both = takes (pushes one second) (λ e. cc) in
    (
      _,
      writes (writes both (λ e. false) [] (second ∷ []) ((first ∷ []) ∷ []) refl) (λ e. false) []
          (first ∷ []) [] refl,
      refl,
    )
