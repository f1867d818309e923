-- ===== src/Logging/Backups.antt =====
-- logging.rs: which backups a clean-up removes.
use miwidothttp.Prelude.{
  ℕ, ◌≤◌, ◌≡◌, ◌⊎◌, refl, sym, inl, inr, Bool, false, Option, List, [], ◌∷◌, ◌++◌, String, length,
  All, leb, leb→le, ltb, Bool-cases, arith, ap, subst, ◌∙◌,
}
use miwidothttp.Logging.{
  LogRotationConfig, cleanup_old_logs, remove_oldest, sort_by_time, insert_by_time, rotated_files,
}
use miwidothttp.Logging.Interleaving.{count}

abbrev pub IsSorted : List (String × ℕ) → Type 0
IsSorted [] = Unit
IsSorted (file ∷ files) = All (λ other. file.1 ≤ other.1) files × IsSorted files

All-le :
    (a b : ℕ) (files : List (String × ℕ))
    → a ≤ b
    → All (λ file. b ≤ file.1) files
    → All (λ file. a ≤ file.1) files
All-le a b [] h all = tt
All-le a b (file ∷ files) h all = (omega arith, All-le a b files h all.1)

All-insert_by_time :
    (a : ℕ) (file : String × ℕ) (files : List (String × ℕ))
    → a ≤ file.1
    → All (λ other. a ≤ other.1) files
    → All (λ other. a ≤ other.1) (insert_by_time file files)
unfolding insert_by_time
All-insert_by_time a file [] h all = (h, tt)
All-insert_by_time a file (other ∷ files) h all =
    ground (arith, All-insert_by_time a file files h all.1)

insert_by_time-IsSorted :
    (file : String × ℕ) (files : List (String × ℕ))
    → IsSorted files
    → IsSorted (insert_by_time file files)
unfolding insert_by_time
insert_by_time-IsSorted file [] s = (tt, tt)
insert_by_time-IsSorted file (other ∷ files) s = elim (Bool-cases (leb file.1 other.1)) [
  | inl before ↦
      let less = leb→le file.1 other.1 before in
      rw before ((less, All-le file.1 other.1 files less s.0), s)
  | inr after ↦ rw after (
    All-insert_by_time other.1 file files (ground (arith, after)) s.0,
    insert_by_time-IsSorted file files s.1,
  )
]

sort_by_time-IsSorted : (files : List (String × ℕ)) → IsSorted (sort_by_time files)
unfolding sort_by_time
sort_by_time-IsSorted [] = tt
sort_by_time-IsSorted (file ∷ files) =
    insert_by_time-IsSorted file (sort_by_time files) (sort_by_time-IsSorted files)

module _ (p : String × ℕ → Bool) where
  count-insert_by_time :
      (file : String × ℕ) (files : List (String × ℕ))
      → count p (insert_by_time file files) ≡ count p (file ∷ files)
  unfolding insert_by_time
  count-insert_by_time file [] = refl
  count-insert_by_time file (other ∷ files) = ground (arith, count-insert_by_time file files)

  count-sort_by_time : (files : List (String × ℕ)) → count p (sort_by_time files) ≡ count p files
  unfolding sort_by_time
  count-sort_by_time [] = refl
  count-sort_by_time (file ∷ files) =
      count-insert_by_time file (sort_by_time files) ∙ ground (arith, count-sort_by_time files)

-- The oldest of some files cannot be removed.
abbrev pub IsStuck : (String → Bool) → List (String × ℕ) → Type 0
IsStuck removable [] = ⊥
IsStuck removable (file ∷ files) = removable file.0 ≡ false

module _ (removable : String → Bool) (max_backups : ℕ) where
  remove_oldest-append :
      (files : List (String × ℕ))
      → (remove_oldest removable max_backups files).0
          ++ (remove_oldest removable max_backups files).1
        ≡ files
  unfolding remove_oldest
  remove_oldest-append [] = refl
  remove_oldest-append (file ∷ files) = ground (arith, remove_oldest-append files)

  -- Fewer than the bound are left only where nothing was removed.
  remove_oldest-enough :
      (files : List (String × ℕ))
      → (max_backups ≤ length (remove_oldest removable max_backups files).1)
        ⊎ ((remove_oldest removable max_backups files).0 ≡ [])
  unfolding remove_oldest
  remove_oldest-enough [] = inr refl
  remove_oldest-enough (file ∷ files) =
      ground (arith, remove_oldest-enough files, remove_oldest-append files)

  -- More than the bound are left only where the oldest of them cannot be removed.
  remove_oldest-bounded :
      (files : List (String × ℕ))
      → (length (remove_oldest removable max_backups files).1 ≤ max_backups)
        ⊎ IsStuck removable (remove_oldest removable max_backups files).1
  unfolding remove_oldest
  remove_oldest-bounded [] = inl (omega arith)
  remove_oldest-bounded (file ∷ files) =
      elim (Bool-cases (ltb max_backups (length (file ∷ files)))) [
        | inr few ↦ rw few (inl (ground (arith, few)))
        | inl many ↦ elim (Bool-cases (removable file.0)) [
          | inl gone ↦ rw (many, gone) (remove_oldest-bounded files)
          | inr stays ↦ rw (many, stays) (inr stays)
        ]
      ]

sorted_parts :
    (older newer : List (String × ℕ))
    → IsSorted (older ++ newer)
    → All (λ a. All (λ b. a.1 ≤ b.1) newer) older
sorted_parts [] newer s = tt
sorted_parts (file ∷ older) newer s = (later older s.0, sorted_parts older newer s.1)
  where
    later :
        (files : List (String × ℕ))
        → All (λ other. file.1 ≤ other.1) (files ++ newer)
        → All (λ other. file.1 ≤ other.1) newer
    later [] all = all
    later (other ∷ files) all = later files all.1

-- A clean-up parts the backups of a log that it finds into those it removes and those it leaves: each
-- backup is in one of the parts once, none that is removed is newer than one that is left, no more are
-- left than the configuration allows unless the oldest of them cannot be removed, and fewer only where
-- none is removed.
pub cleanup_old_logs-parts :
    (removable : String → Bool) (base_name : String) (config : LogRotationConfig)
    (entries : List (String × Option ℕ))
    → let done = cleanup_old_logs removable base_name config entries in
      ((p : String × ℕ → Bool)
        → count p (done.0 ++ done.1) ≡ count p (rotated_files base_name entries))
      × All (λ removed. All (λ left. removed.1 ≤ left.1) done.1) done.0
      × ((length done.1 ≤ config.max_backups) ⊎ IsStuck removable done.1)
      × ((config.max_backups ≤ length done.1) ⊎ (done.0 ≡ []))
unfolding cleanup_old_logs
cleanup_old_logs-parts removable base_name config entries =
    let files = rotated_files base_name entries in
    let whole = remove_oldest-append removable config.max_backups (sort_by_time files) in
    (
      λ p. ap (count p) whole ∙ count-sort_by_time p files,
      sorted_parts _ _ (subst IsSorted (sym whole) (sort_by_time-IsSorted files)),
      remove_oldest-bounded removable config.max_backups (sort_by_time files),
      remove_oldest-enough removable config.max_backups (sort_by_time files),
    )
