-- ===== src/Flock.antt =====
-- store/posixage/internal/flock: the lock of a directory, as steps of many processes. A process is a
-- number, and so is a file: the number stands for the inode. A step is a call of the system, which may
-- fail, or a passing second.
pub mod Exclusion
use secrets_engine.Prelude.{
  ℕ, suc, ◌-◌, ◌≡◌, ◌≢◌, Bool, true, false, ◌||◌, Option, none, some, leb, ltb, ◌==◌, if◌then◌else◌,
}

-- `staleThreshold`, in seconds
abbrev pub stale_threshold : ℕ
stale_threshold = 30

-- Where a call of `tryLock` is. The Booleans say whether it is in `retryLock` and whether the lock is to be
-- exclusive.
pub data Phase : Type 0 where
  idle : Phase
  opened locked truncated : Bool → Bool → ℕ → Phase
  holding : Bool → ℕ → Phase
  failed stale retrying : Bool → Phase

-- The file at the path of the lock, the next new file, the times of the files, the time, and the phases.
pub record State : Type 0 where
  pub path : Option ℕ
  pub fresh : ℕ
  pub mod_time : ℕ → ℕ
  pub now : ℕ
  pub phase : ℕ → Phase

abbrev pub set_phase : ℕ → Phase → (ℕ → Phase) → ℕ → Phase
set_phase p ph phase q = if q == p then ph else phase q

abbrev pub goes : ℕ → Phase → State → State
goes p ph s = record s { phase = set_phase p ph s.phase }

-- The time of the file is the present.
abbrev pub touch : ℕ → State → State
touch i s = record s { mod_time = λ j. if j == i then s.now else s.mod_time j }

abbrev opened_in : ℕ → Bool → Bool → Option ℕ → State → State
opened_in p r x (some i) s = goes p (opened r x i) s
opened_in p r x none s =
    goes p (opened r x s.fresh)
      (touch s.fresh (record s { path = some s.fresh; fresh = suc s.fresh }))

-- `openFile`, which creates the file if there is none.
unfoldable pub open_file : ℕ → Bool → Bool → State → State
open_file p r x s = opened_in p r x s.path s

-- After an attempt fails: `tryLock` recovers once, and `retryLock` tries again.
abbrev pub after_failure : Bool → Bool → Phase
after_failure r x = if r then retrying x else failed x

-- The lock that a process has, from `lockFile` to the release.
abbrev pub lock_of : Phase → Option (ℕ × Bool)
lock_of (locked r x i) = some (i, x)
lock_of (truncated r x i) = some (i, x)
lock_of (holding x i) = some (i, x)
lock_of _ = none

-- The file whose lock a call of `tryLock` has returned.
abbrev pub held_by : Phase → Option ℕ
held_by (holding x i) = some i
held_by _ = none

-- The system gives a lock on a file unless another process has one and either is exclusive.
abbrev pub IsFree : ℕ → Bool → ℕ → State → Type 0
IsFree p x i s = (q : ℕ) (y : Bool) → p ≢ q → lock_of (s.phase q) ≡ some (i, y) → (x || y) ≡ false

abbrev pub is_at : ℕ → Option ℕ → Bool
is_at i none = false
is_at i (some j) = i == j

-- `isCurrentLockFile`
abbrev pub is_current_lock_file : ℕ → State → Bool
is_current_lock_file i s = is_at i s.path

-- The end of `acquireOnce`.
unfoldable pub verify : ℕ → Bool → Bool → ℕ → State → State
verify p r x i s = goes p (if is_current_lock_file i s then holding x i else after_failure r x) s

abbrev pub is_stale_at : Option ℕ → State → Bool
is_stale_at none s = false
is_stale_at (some i) s = leb stale_threshold (s.now - s.mod_time i)

-- The test of `recoverStaleLock`.
unfoldable pub recover_stat : ℕ → Bool → State → State
recover_stat p x s = goes p (if is_stale_at s.path s then stale x else retrying x) s

-- Its removal of the file at the path.
unfoldable pub recover_remove : ℕ → Bool → State → State
recover_remove p x s = goes p (retrying x) (record s { path = none })

pub data Event : Type 0 where
  remove other : Event

pub data Step : Event → State → State → Type 0 where
  try_lock :
      (p : ℕ) (x : Bool) (s : State) → s.phase p ≡ idle → Step other s (open_file p false x s)
  open_fails :
      (p : ℕ) (x : Bool) (s : State) → s.phase p ≡ idle → Step other s (goes p (failed x) s)
  retry_lock :
      (p : ℕ) (x : Bool) (s : State) → s.phase p ≡ retrying x → Step other s (open_file p true x s)
  lock_file :
      (p : ℕ) (r x : Bool) (i : ℕ) (s : State)
      → s.phase p ≡ opened r x i
      → IsFree p x i s
      → Step other s (goes p (locked r x i) s)
  lock_fails :
      (p : ℕ) (r x : Bool) (i : ℕ) (s : State)
      → s.phase p ≡ opened r x i
      → Step other s (goes p (after_failure r x) s)
  truncate :
      (p : ℕ) (r x : Bool) (i : ℕ) (s : State)
      → s.phase p ≡ locked r x i
      → Step other s (goes p (truncated r x i) (touch i s))
  truncate_fails :
      (p : ℕ) (r x : Bool) (i : ℕ) (s : State)
      → s.phase p ≡ locked r x i
      → Step other s (goes p (truncated r x i) s)
  verifies :
      (p : ℕ) (r x : Bool) (i : ℕ) (s : State)
      → s.phase p ≡ truncated r x i
      → Step other s (verify p r x i s)
  verify_fails :
      (p : ℕ) (r x : Bool) (i : ℕ) (s : State)
      → s.phase p ≡ truncated r x i
      → Step other s (goes p (after_failure r x) s)
  recovers :
      (p : ℕ) (x : Bool) (s : State) → s.phase p ≡ failed x → Step other s (recover_stat p x s)
  removes :
      (p : ℕ) (x : Bool) (s : State) → s.phase p ≡ stale x → Step remove s (recover_remove p x s)
  gives_up : (p : ℕ) (s : State) → lock_of (s.phase p) ≡ none → Step other s (goes p idle s)
  heartbeat :
      (p : ℕ) (x : Bool) (i : ℕ) (s : State) → s.phase p ≡ holding x i → Step other s (touch i s)
  unlock :
      (p : ℕ) (x : Bool) (i : ℕ) (s : State)
      → s.phase p ≡ holding x i
      → Step other s (goes p idle s)
  tick : (s : State) → Step other s (record s { now = suc s.now })

-- No process holds the lock on the file at the path.
abbrev pub IsUnheld : State → Type 0
IsUnheld s = (q i : ℕ) → s.path ≡ some i → held_by (s.phase q) ≢ some i

-- The condition on a step: no lock is held on a file that is removed.
abbrev pub IsCalm : Event → State → Type 0
IsCalm remove s = IsUnheld s
IsCalm other s = Unit

-- Steps in which no lock is held on a file that is removed.
pub data CalmSteps (s : State) : State → Type 0 where
  here : CalmSteps s s
  next : {e : Event} {t u : State} → CalmSteps s t → IsCalm e t → Step e t u → CalmSteps s u

-- No process has begun.
abbrev pub start : Option ℕ → State
start path = record { path = path; fresh = 1; mod_time = λ i. 0; now = 0; phase = λ p. idle }
