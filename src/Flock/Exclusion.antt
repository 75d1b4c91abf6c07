-- ===== src/Flock/Exclusion.antt =====
-- store/posixage/internal/flock: who may hold the lock at the same time.
use secrets_engine.Flock.{
  Phase, idle, opened, locked, truncated, holding, failed, stale, retrying, State, set_phase,
  open_file, after_failure, lock_of, held_by, is_at, is_current_lock_file, is_stale_at, verify,
  recover_stat, recover_remove, Event, Step, try_lock, open_fails, retry_lock, lock_file,
  lock_fails, truncate, truncate_fails, verifies, verify_fails, recovers, removes, gives_up,
  heartbeat, unlock, tick, IsUnheld, IsCalm, CalmSteps, here, next, start,
}
use secrets_engine.Prelude.{
  ℕ, ◌≡◌, ◌≢◌, refl, sym, ap, ◌∙◌, ◌||◌, Bool, true, false, Option, none, some, inl, inr, arith,
  Bool-cases, Option-cases, ◌==◌,
}

-- The lock that a process has excludes those of others, and a held lock is on the file at the path.
pub record IsSound (path : Option ℕ) (phase : ℕ → Phase) : Type 0 where
  pub excludes :
      (p q i : ℕ) (x y : Bool)
      → p ≢ q
      → lock_of (phase p) ≡ some (i, x)
      → lock_of (phase q) ≡ some (i, y)
      → (x || y) ≡ false
  pub current : (p i : ℕ) → held_by (phase p) ≡ some i → path ≡ some i

same_number : (a b : ℕ) → (a == b) ≡ true → a ≡ b
same_number a b h = ground arith

other_number : (a b : ℕ) → a ≢ b → (a == b) ≡ false
other_number a b h = ground arith

-- A process that goes to a phase with no other lock, and holds it only if it is on the file at the path.
goes-IsSound :
    (path : Option ℕ) (phase : ℕ → Phase) (p : ℕ) (ph : Phase)
    → IsSound path phase
    → ((q i : ℕ) (x y : Bool)
        → p ≢ q
        → lock_of ph ≡ some (i, x)
        → lock_of (phase q) ≡ some (i, y)
        → (x || y) ≡ false)
    → ((i : ℕ) → held_by ph ≡ some i → path ≡ some i)
    → IsSound path (set_phase p ph phase)
goes-IsSound path phase p ph sound h k = record {
  excludes = λ a b i x y n l m. elim (Bool-cases (a == p)) [
    | inl ea ↦
        h b i x y (λ e. n (same_number a p ea ∙ e)) (rw ea at l)
          (rw (other_number b p (λ e. n (same_number a p ea ∙ sym e))) at m)
    | inr ea ↦ elim (Bool-cases (b == p)) [
      | inl eb ↦
          ground
            (arith, h a i y x (λ e. n (sym e ∙ sym (same_number b p eb))) (rw eb at m) (rw ea at l))
      | inr eb ↦ sound.excludes a b i x y n (rw ea at l) (rw eb at m)
    ]
  ];
  current = λ a i l. elim (Bool-cases (a == p)) [
    | inl ea ↦ k i (rw ea at l)
    | inr ea ↦ sound.current a i (rw ea at l)
  ];
}

none-some {ℓ} : {A : Type ℓ} (o : Option A) (a : A) → o ≡ none → o ≡ some a → ⊥
none-some none a e h = cc
none-some (some b) a e h = cc

-- A process that releases its lock or has none.
released :
    (path : Option ℕ) (phase : ℕ → Phase) (p : ℕ) (ph : Phase)
    → IsSound path phase
    → lock_of ph ≡ none
    → held_by ph ≡ none
    → IsSound path (set_phase p ph phase)
released path phase p ph sound e e' =
    goes-IsSound path phase p ph sound (λ q i x y n l m. absurd (none-some (lock_of ph) (i, x) e l))
      (λ i l. absurd (none-some (held_by ph) i e' l))

-- A process that keeps its lock.
kept :
    (path : Option ℕ) (phase : ℕ → Phase) (p : ℕ) (ph : Phase)
    → IsSound path phase
    → lock_of ph ≡ lock_of (phase p)
    → ((i : ℕ) → held_by ph ≡ some i → path ≡ some i)
    → IsSound path (set_phase p ph phase)
kept path phase p ph sound e k =
    goes-IsSound path phase p ph sound (λ q i x y n l m. sound.excludes p q i x y n (sym e ∙ l) m) k

failure_lock :
    (r x : Bool) → (lock_of (after_failure r x) ≡ none) × (held_by (after_failure r x) ≡ none)
failure_lock true x = (refl, refl)
failure_lock false x = (refl, refl)

after_failure-IsSound :
    (p : ℕ) (r x : Bool) (s : State)
    → IsSound s.path s.phase
    → IsSound s.path (set_phase p (after_failure r x) s.phase)
after_failure-IsSound p r x s sound =
    released s.path s.phase p (after_failure r x) sound (failure_lock r x).0 (failure_lock r x).1

created :
    (path : Option ℕ) (phase : ℕ → Phase) (i : ℕ)
    → path ≡ none
    → IsSound path phase
    → IsSound (some i) phase
created path phase i e sound = record {
  excludes = sound.excludes;
  current = λ q j l. absurd (none-some path j e (sound.current q j l));
}

open_file-IsSound :
    (p : ℕ) (r x : Bool) (s : State)
    → IsSound s.path s.phase
    → IsSound (open_file p r x s).path (open_file p r x s).phase
unfolding open_file
open_file-IsSound p r x s sound = elim (Option-cases s.path) [
  | inl e ↦ rw e (
      released (some s.fresh) s.phase p (opened r x s.fresh)
        (created s.path s.phase s.fresh e sound) refl refl)
  | inr (i, e) ↦ rw e (released (some i) s.phase p (opened r x i) (rw e at sound) refl refl)
]

is_at-true : (i : ℕ) (path : Option ℕ) → is_at i path ≡ true → path ≡ some i
is_at-true i none h = cc
is_at-true i (some j) h = rw (same_number i j h) refl

verify-IsSound :
    (p : ℕ) (r x : Bool) (i : ℕ) (s : State)
    → s.phase p ≡ truncated r x i
    → IsSound s.path s.phase
    → IsSound (verify p r x i s).path (verify p r x i s).phase
unfolding verify
verify-IsSound p r x i s at sound = elim (Bool-cases (is_current_lock_file i s)) [
  | inl e ↦ rw e (
      kept s.path s.phase p (holding x i) sound (sym (ap lock_of at))
        (λ j l. is_at-true i s.path e ∙ l))
  | inr e ↦ rw e (after_failure-IsSound p r x s sound)
]

recover_stat-IsSound :
    (p : ℕ) (x : Bool) (s : State)
    → IsSound s.path s.phase
    → IsSound (recover_stat p x s).path (recover_stat p x s).phase
unfolding recover_stat
recover_stat-IsSound p x s sound = elim (Bool-cases (is_stale_at s.path s)) [
  | inl e ↦ rw e (released s.path s.phase p (stale x) sound refl refl)
  | inr e ↦ rw e (released s.path s.phase p (retrying x) sound refl refl)
]

recover_remove-IsSound :
    (p : ℕ) (x : Bool) (s : State)
    → IsUnheld s
    → IsSound s.path s.phase
    → IsSound (recover_remove p x s).path (recover_remove p x s).phase
unfolding recover_remove
recover_remove-IsSound p x s unheld sound =
    released none s.phase p (retrying x)
      (record {
        excludes = sound.excludes;
        current = λ q i l. absurd (unheld q i (sound.current q i l) l);
      })
      refl refl

abbrev file_of : Option (ℕ × Bool) → ℕ
file_of none = 0
file_of (some (i, x)) = i

abbrev mode_of : Option (ℕ × Bool) → Bool
mode_of none = false
mode_of (some (i, x)) = x

abbrev number_of : Option ℕ → ℕ
number_of none = 0
number_of (some i) = i

Step-IsSound :
    {e : Event} {s t : State}
    → Step e s t
    → IsCalm e s
    → IsSound s.path s.phase
    → IsSound t.path t.phase
Step-IsSound (try_lock p x s h) calm sound = open_file-IsSound p false x s sound
Step-IsSound (open_fails p x s h) calm sound = released s.path s.phase p (failed x) sound refl refl
Step-IsSound (retry_lock p x s h) calm sound = open_file-IsSound p true x s sound
Step-IsSound (lock_file p r x i s h free) calm sound =
    goes-IsSound s.path s.phase p (locked r x i) sound
      (λ q j a b n l m. rw (sym (ap mode_of l)) (free q b n (rw (sym (ap file_of l)) at m)))
      (λ j l. cc)
Step-IsSound (lock_fails p r x i s h) calm sound = after_failure-IsSound p r x s sound
Step-IsSound (truncate p r x i s h) calm sound =
    kept s.path s.phase p (truncated r x i) sound (sym (ap lock_of h)) (λ j l. cc)
Step-IsSound (truncate_fails p r x i s h) calm sound =
    kept s.path s.phase p (truncated r x i) sound (sym (ap lock_of h)) (λ j l. cc)
Step-IsSound (verifies p r x i s h) calm sound = verify-IsSound p r x i s h sound
Step-IsSound (verify_fails p r x i s h) calm sound = after_failure-IsSound p r x s sound
Step-IsSound (recovers p x s h) calm sound = recover_stat-IsSound p x s sound
Step-IsSound (removes p x s h) calm sound = recover_remove-IsSound p x s calm sound
Step-IsSound (gives_up p s h) calm sound = released s.path s.phase p idle sound refl refl
Step-IsSound (heartbeat p x i s h) calm sound = sound
Step-IsSound (unlock p x i s h) calm sound = released s.path s.phase p idle sound refl refl
Step-IsSound (tick s) calm sound = sound

start-IsSound : (path : Option ℕ) → IsSound path (start path).phase
start-IsSound path = record { excludes = λ p q i x y n l m. cc; current = λ p i l. cc }

CalmSteps-IsSound : {s t : State} → IsSound s.path s.phase → CalmSteps s t → IsSound t.path t.phase
CalmSteps-IsSound sound here = sound
CalmSteps-IsSound sound (next steps calm step) =
    Step-IsSound step calm (CalmSteps-IsSound sound steps)

-- From a state in which no process has begun, as long as no file is removed on which a lock is held: if two
-- processes hold the lock, neither holds it exclusively, and both hold it on the file at the path.
pub holders_share :
    (path : Option ℕ) (t : State) (p q i j : ℕ) (x y : Bool)
    → CalmSteps (start path) t
    → p ≢ q
    → t.phase p ≡ holding x i
    → t.phase q ≡ holding y j
    → ((x || y) ≡ false) × (t.path ≡ some i) × (t.path ≡ some j)
holders_share path t p q i j x y steps n h k =
    let sound = CalmSteps-IsSound (start-IsSound path) steps in
    let here_p = sound.current p i (ap held_by h) in
    let here_q = sound.current q j (ap held_by k) in
    (
      sound.excludes p q i x y n (ap lock_of h)
          (ap lock_of k ∙ ap (λ f. some (f, y)) (ap number_of (sym here_q ∙ here_p))),
      here_p,
      here_q,
    )
