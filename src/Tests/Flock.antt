-- ===== src/Tests/Flock.antt =====
-- Runs and instances for store/posixage/internal/flock.
use secrets_engine.Flock.{
  locked, truncated, holding, failed, State, goes, touch, open_file, verify, recover_stat,
  recover_remove, IsFree, try_lock, lock_file, truncate, verifies, CalmSteps, here, next, start,
}
use secrets_engine.Flock.Exclusion.{holders_share}
use secrets_engine.Prelude.{
  ℕ, ◌≡◌, refl, ap, sym, Option, ◌||◌, Bool, true, false, none, some, arith, Bool-cases, inl, inr,
  ◌==◌,
}

-- A lock is taken on a file.
abbrev take_lock : ℕ → Bool → Bool → ℕ → State → State
take_lock p r x i s =
    verify p r x i (goes p (truncated r x i) (touch i (goes p (locked r x i) (open_file p r x s))))

-- Process 0 holds the lock, and then more than the threshold passes.
abbrev late : State
late = record (take_lock 0 false true 1 (start none)) { now = 40 }

-- Processes 1 and 2 fail, and both find that the file is stale.
abbrev both_stale : State
both_stale =
    recover_stat 2 true (goes 2 (failed true) (recover_stat 1 true (goes 1 (failed true) late)))

-- Process 1 removes it and takes the lock on a new file; process 2 removes that one and takes another.
abbrev both_hold : State
both_hold =
    take_lock 2 true true 3
      (recover_remove 2 true (take_lock 1 true true 2 (recover_remove 1 true both_stale)))

two_exclusive_holders : (both_hold.phase 1 ≡ holding true 2) × (both_hold.phase 2 ≡ holding true 3)
unfolding verify open_file recover_stat recover_remove
two_exclusive_holders = (refl, refl)

-- Processes 0 and 1 take the lock to read.
abbrev one_reads : State
one_reads = take_lock 0 false false 1 (start none)

abbrev both_read : State
both_read = take_lock 1 false false 1 one_reads

abbrev mode_of : Option (ℕ × Bool) → Bool
mode_of none = false
mode_of (some (i, x)) = x

no_lock : {P : Type 0} {a : ℕ × Bool} → none ≡ some a → P
no_lock e = absurd (ground (arith, e))

IsFree-first : IsFree 0 false 1 (open_file 0 false false (start none))
unfolding open_file
IsFree-first q y n l = elim (Bool-cases (q == 0)) [
  | inl e ↦ absurd (n (ground arith))
  | inr e ↦ no_lock (rw e at l)
]

IsFree-second : IsFree 1 false 1 (open_file 1 false false one_reads)
unfolding open_file verify
IsFree-second q y n l = elim (Bool-cases (q == 1)) [
  | inl e ↦ absurd (n (ground arith))
  | inr e ↦ elim (Bool-cases (q == 0)) [
    | inl f ↦ sym (ap mode_of (rw (e, f) at l))
    | inr f ↦ no_lock (rw (e, f) at l)
  ]
]

first : CalmSteps (start none) one_reads
unfolding open_file verify
first =
    next
      (next
        (next (next here tt (try_lock 0 false (start none) refl)) tt
          (lock_file 0 false false 1 _ refl IsFree-first))
        tt (truncate 0 false false 1 _ refl))
      tt (verifies 0 false false 1 _ refl)

reads : CalmSteps (start none) both_read
unfolding open_file verify
reads =
    next
      (next
        (next (next first tt (try_lock 1 false one_reads refl)) tt
          (lock_file 1 false false 1 _ refl IsFree-second))
        tt (truncate 1 false false 1 _ refl))
      tt (verifies 1 false false 1 _ refl)

holders_share_example :
    ((false || false) ≡ false) × (both_read.path ≡ some 1) × (both_read.path ≡ some 1)
holders_share_example =
    holders_share none both_read 0 1 1 1 false false reads (λ e. ground arith)
      (unfold open_file verify in refl) (unfold open_file verify in refl)
