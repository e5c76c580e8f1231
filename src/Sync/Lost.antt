-- ===== src/Sync/Lost.antt =====
-- core/exec_impl.h: `lai_mutex_lock` does not load the word again after a wait, so that a thread
-- that has found the mutex contended does not see it freed.
use mathlib.Core.Path.{subst}
use lai.Base.{ℕ, ◌≡◌, ◌⊎◌, inl, inr, refl, sym, ==_ne}
use native.Mathlib.Decide.{ℕ_discrete}
use lai.Sync.Mutex.{LockPc, mutex_step, MutexSystem, mutex_next}
use lai.Sync.Exclusion.{full_host, update_self}

-- Runs in which no wait of thread `i` reaches its deadline; other threads may time out.
pub data EndlessRuns (i : ℕ) (s : MutexSystem) : MutexSystem → Type 0 where
  begin : EndlessRuns i s s
  next :
      {t : MutexSystem} (j result : ℕ)
      → (j ≡ i → result ≡ 0)
      → EndlessRuns i s t
      → EndlessRuns i s (mutex_next full_host t j result)

-- The thread is in `lai_mutex_lock`, with the value of a contended mutex.
abbrev pub Missed : LockPc → Type 0
Missed p = (p ≡ LockPc.loop 3) ⊎ (p ≡ LockPc.blocking 3)

step-Missed : (val : ℕ) (p : LockPc) → Missed p → Missed (mutex_step full_host 0 val p).1
unfolding mutex_step
step-Missed val p (inl e) = rw e (inr refl)
step-Missed val p (inr e) = rw e (inl refl)

next-Missed :
    (t : MutexSystem) (i j result : ℕ)
    → (j ≡ i → result ≡ 0)
    → Missed (t.pc i)
    → Missed ((mutex_next full_host t j result).pc i)
unfolding mutex_next
next-Missed t i j result endless missed = elim (ℕ_discrete i j) [
  | yes e ↦
      let p = (mutex_step full_host result t.val (t.pc j)).1 in
      subst Missed (sym (update_self t.pc j i p e)) (
        subst (λ r. Missed (mutex_step full_host r t.val (t.pc j)).1) (sym (endless (sym e)))
          (step-Missed t.val (t.pc j) (subst (λ k. Missed (t.pc k)) e missed)))
  | no ne ↦ rw (==_ne i j ne) missed
]

-- A thread that is at the top of the loop of lai_mutex_lock with the value of a contended mutex
-- never gets the mutex in a run in which its own waits reach no deadline, whatever the other
-- threads do (their waits may time out): it stays in the loop with the value that it has loaded.
-- The host has the functions for waiting.
pub lost_wakeup :
    (i : ℕ) {s t : MutexSystem} → s.pc i ≡ LockPc.loop 3 → EndlessRuns i s t → Missed (t.pc i)
lost_wakeup i at begin = inl at
lost_wakeup i at (next {t} j result endless runs) =
    next-Missed t i j result endless (lost_wakeup i at runs)
