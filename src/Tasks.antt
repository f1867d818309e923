-- ===== src/Tasks.antt =====
-- What several tasks of a program do to a state that they share: each step is one action of one task,
-- and any steps of other tasks may lie between two of its own. An action may put others in front of
-- what its task has left, so that a task is the list of its next actions.
use miwidothttp.Prelude.{
  ℕ, zero, suc, ◌≡◌, refl, Bool, true, false, ◌||◌, ◌&&◌, List, [], ◌∷◌, ◌++◌, arith,
}

pub record Pool (S A : Type 0) : Type 0 where
  pub shared : S
  pub tasks : List (List A)

module _ {A : Type 0} (p : A → Bool) where
  -- Whether an action of a task passes a test, and whether one of any task does.
  abbrev pub has : List A → Bool
  has [] = false
  has (a ∷ more) = p a || has more

  abbrev pub pending : List (List A) → Bool
  pending [] = false
  pending (task ∷ tasks) = has task || pending tasks

  pub pending-append :
      (before : List (List A)) (task : List A) (after : List (List A))
      → pending (before ++ task ∷ after) ≡ (has task || (pending before || pending after))
  pending-append [] task after = refl
  pending-append (t ∷ before) task after = ground (arith, pending-append before task after)

module _ {A : Type 0} (p : List A → Bool) where
  abbrev pub every : List (List A) → Bool
  every [] = true
  every (task ∷ tasks) = p task && every tasks

  pub every-append :
      (before : List (List A)) (task : List A) (after : List (List A))
      → every (before ++ task ∷ after) ≡ (p task && (every before && every after))
  every-append [] task after = refl
  every-append (t ∷ before) task after = ground (arith, every-append before task after)

module _ {S A : Type 0} (perform : A → S → S × List A) (IsProgram : List A → Type 0) where
  pub data Step (pool : Pool S A) : Pool S A → Type 0 where
    spawns :
        (task : List A)
        → IsProgram task
        → Step pool (record { shared = pool.shared; tasks = task ∷ pool.tasks })
    runs :
        (before : List (List A)) (a : A) (rest : List A) (after : List (List A))
        → pool.tasks ≡ before ++ (a ∷ rest) ∷ after
        → Step pool (record {
          shared = (perform a pool.shared).0;
          tasks = before ++ ((perform a pool.shared).1 ++ rest) ∷ after;
        })

  pub data Reach (pool : Pool S A) : Pool S A → Type 0 where
    here : Reach pool pool
    next : {n k : Pool S A} → Reach pool n → Step n k → Reach pool k

module _ {S A : Type 0} (perform : A → S → S × List A) where
  -- A task that runs with no other: at most so many of its actions.
  unfoldable pub alone : ℕ → List A → S → S
  alone zero task s = s
  alone (suc n) [] s = s
  alone (suc n) (a ∷ rest) s = alone n ((perform a s).1 ++ rest) (perform a s).0
