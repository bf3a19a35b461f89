-- ===== src/Process/Invariant.antt =====
-- kernel/process.c: process identifiers stay distinct, and at most the current process is running.
use os_u.Prelude.{ℕ, ◌<◌, ◌≡◌, ◌≢◌, ◌⊎◌, inl, inr, refl, Option, none, some, arith, Bool-cases}
use os_u.Process.Defs.{
  unused, ready, running, is, Process, Table, put, cleanup_zombies, release, dispatch, schedule,
}
use os_u.Process.Scheduling.{is_iff, Outcome, schedule-Outcome, nth}

-- Every process in the table has an identifier below the next one, and no two have the same.
pub record PidsOk (t : Table) : Type 0 where
  pub below : (i : ℕ) → i < 16 → (t.slot i).state ≢ unused → (t.slot i).pid < t.next_pid
  pub distinct :
      (i j : ℕ)
      → i < 16
      → j < 16
      → (t.slot i).state ≢ unused
      → (t.slot j).state ≢ unused
      → (t.slot i).pid ≡ (t.slot j).pid
      → i ≡ j

-- The current process has a slot, and no other process is running.
pub record RunOk (t : Table) : Type 0 where
  pub current_in : (i : ℕ) → t.current ≡ some i → i < 16
  pub running_is_current : (i : ℕ) → i < 16 → (t.slot i).state ≡ running → t.current ≡ some i

pub record IsValid (t : Table) : Type 0 where
  pub pids : PidsOk t
  pub runs : RunOk t

-- From `t` to `u` no process comes in and no identifier of a process changes.
pub record Keeps (t u : Table) : Type 0 where
  pub same_next : u.next_pid ≡ t.next_pid
  pub was_used : (i : ℕ) → (u.slot i).state ≢ unused → (t.slot i).state ≢ unused
  pub same_pid : (i : ℕ) → (u.slot i).state ≢ unused → (u.slot i).pid ≡ (t.slot i).pid

Keeps-refl : (t : Table) → Keeps t t
Keeps-refl t = record { same_next = refl; was_used = λ i h. h; same_pid = λ i h. refl }

Keeps-trans : (t u v : Table) → Keeps t u → Keeps u v → Keeps t v
Keeps-trans t u v k l = record {
  same_next = omega (arith, k.same_next, l.same_next);
  was_used = λ i h. k.was_used i (l.was_used i h);
  same_pid = λ i h. omega (arith, l.same_pid i h, k.same_pid i (l.was_used i h));
}

pub PidsOk-Keeps : (t u : Table) → Keeps t u → PidsOk t → PidsOk u
PidsOk-Keeps t u k v = record {
  below = λ i h n. omega (arith, v.below i h (k.was_used i n), k.same_pid i n, k.same_next);
  distinct = λ i j h h' n n' e.
      v.distinct i j h h' (k.was_used i n) (k.was_used j n')
        (omega (arith, e, k.same_pid i n, k.same_pid j n'));
}

-- Replacing a used slot by a process of the same identifier.
pub put-Keeps :
    (t : Table) (i : ℕ) (p : Process)
    → (t.slot i).state ≢ unused
    → p.pid ≡ (t.slot i).pid
    → Keeps t (put t i p)
put-Keeps t i p used same = record {
  same_next = refl;
  was_used = λ j h. ground arith;
  same_pid = λ j h. ground arith;
}

cleanup-Keeps : (t : Table) → Keeps t (cleanup_zombies t)
unfolding cleanup_zombies
cleanup-Keeps t = record {
  same_next = refl;
  was_used = λ j h. ground arith;
  same_pid = λ j h. ground arith;
}

release-Keeps : (t : Table) (c : Option ℕ) → Keeps t (release t c)
unfolding release
release-Keeps t none = Keeps-refl t
release-Keeps t (some i) = elim (Bool-cases (is (t.slot i).state running)) [
  | inl e ↦ rw e (
      put-Keeps t i (record (t.slot i) { state = ready })
        (λ u. ground (arith, is_iff (t.slot i).state running)) refl)
  | inr e ↦ rw e (Keeps-refl t)
]

release-slot :
    (t : Table) (c : Option ℕ) (j : ℕ)
    → (((release t c).slot j).state ≡ ready) ⊎ (((release t c).slot j).state ≡ (t.slot j).state)
unfolding release
release-slot t none j = inr refl
release-slot t (some i) j = ground arith

dispatch-Keeps : (t : Table) (n : ℕ) → (t.slot n).state ≡ ready → Keeps t (dispatch t n).0
unfolding dispatch
dispatch-Keeps t n e =
    let t' = release t t.current in
    let k : Keeps t t' = release-Keeps t t.current in
    let l : Keeps t' (put t' n (record (t'.slot n) { state = running })) =
      put-Keeps t' n (record (t'.slot n) { state = running })
        (λ u. ground (arith, release-slot t t.current n)) refl in
    record {
      same_next = omega (arith, k.same_next);
      was_used = λ j h. k.was_used j (l.was_used j h);
      same_pid = λ j h. omega (arith, l.same_pid j h, k.same_pid j (l.was_used j h));
    }

pub schedule-Keeps : (t : Table) → Keeps t (schedule t).0
schedule-Keeps t = elim (schedule-Outcome t) [
  | Outcome.off o e ↦ rw e (Keeps-refl t)
  | Outcome.idle o all e ↦ rw e (cleanup-Keeps t)
  | Outcome.runs i o h r r' first e ↦
      rw e (Keeps-trans _ _ _ (cleanup-Keeps t) (dispatch-Keeps (cleanup_zombies t) _ r))
]

released : (t : Table) (j : ℕ) → RunOk t → j < 16 → ((release t t.current).slot j).state ≢ running
unfolding release
released t j v h e = ground (arith, v.running_is_current j, v.current_in j)

cleanup-RunOk : (t : Table) → RunOk t → RunOk (cleanup_zombies t)
unfolding cleanup_zombies
cleanup-RunOk t v = record {
  current_in = v.current_in;
  running_is_current = λ i h e. v.running_is_current i h (ground arith);
}

dispatch-RunOk : (t : Table) (n : ℕ) → n < 16 → RunOk t → RunOk (dispatch t n).0
unfolding dispatch
dispatch-RunOk t n h v = record {
  current_in = λ i e. ground arith;
  running_is_current = λ i hi e. ground (arith, released t i v hi);
}

pub schedule-RunOk : (t : Table) → RunOk t → RunOk (schedule t).0
schedule-RunOk t v = elim (schedule-Outcome t) [
  | Outcome.off o e ↦ rw e v
  | Outcome.idle o all e ↦ rw e (cleanup-RunOk t v)
  | Outcome.runs i o h r r' first e ↦
      rw e (dispatch-RunOk (cleanup_zombies t) (nth t i) (omega arith) (cleanup-RunOk t v))
]

-- schedule keeps a table valid: the identifiers of the processes stay distinct and below the next
-- one, and no process but the current one is running.
pub schedule-IsValid : (t : Table) → IsValid t → IsValid (schedule t).0
schedule-IsValid t v = record {
  pids = PidsOk-Keeps t _ (schedule-Keeps t) v.pids;
  runs = schedule-RunOk t v.runs;
}

-- A used slot may be given another process of the same identifier that is not newly running.
pub put-IsValid :
    (t : Table) (i : ℕ) (p : Process)
    → IsValid t
    → (t.slot i).state ≢ unused
    → p.pid ≡ (t.slot i).pid
    → (p.state ≡ running → (t.slot i).state ≡ running)
    → IsValid (put t i p)
put-IsValid t i p v used same run = record {
  pids = PidsOk-Keeps t (put t i p) (put-Keeps t i p used same) v.pids;
  runs = record {
    current_in = v.runs.current_in;
    running_is_current = λ j h r. ground (arith, v.runs.running_is_current j h);
  };
}
