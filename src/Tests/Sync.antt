-- ===== src/Tests/Sync.antt =====
-- Tests of the mutexes and events in core/exec_impl.h.
use lai.Base.{ℕ, ◌+◌, ◌≡◌, ◌≢◌, refl, true}
use lai.Sync.Mutex.{LockPc, MutexSystem, MutexRuns, fresh_mutex, mutex_next}
use lai.Sync.Exclusion.{full_host, possesses, mutual_exclusion}
use lai.Sync.Lost.{EndlessRuns, Missed, lost_wakeup}
use lai.Sync.Event.{EventCall, EventSystem, EventRuns, fresh_event, event_next, event_count}
use lai.Sync.Signals.{signals_conserved}

-- Thread 0 has the mutex, thread 1 waits for it.
abbrev one_waits : MutexSystem
one_waits =
    mutex_next full_host
      (mutex_next full_host (mutex_next full_host (mutex_next full_host fresh_mutex 0 0) 0 0) 1 0) 1
      0

one_waits_runs : MutexRuns full_host fresh_mutex one_waits
one_waits_runs =
    MutexRuns.later 1 0
      (MutexRuns.later 1 0 (MutexRuns.later 0 0 (MutexRuns.later 0 0 MutexRuns.start)))

mutual_exclusion_example :
    ((i j : ℕ) → possesses (one_waits.pc i) ≡ true → possesses (one_waits.pc j) ≡ true → i ≡ j)
    × ((i : ℕ) → one_waits.pc i ≢ LockPc.broken)
mutual_exclusion_example = mutual_exclusion one_waits_runs

one_waits_lem :
    (one_waits.pc 0 ≡ LockPc.held) × (one_waits.pc 1 ≡ LockPc.blocking 1) × (one_waits.val ≡ 3)
unfolding mutex_next
one_waits_lem = (refl, refl, refl)

-- Thread 2 finds the mutex contended; then thread 0 unlocks it.
abbrev two_comes : MutexSystem
two_comes = mutex_next full_host one_waits 2 0

abbrev freed : MutexSystem
freed = mutex_next full_host (mutex_next full_host (mutex_next full_host two_comes 0 0) 2 0) 2 0

lost_wakeup_example : Missed (freed.pc 2)
unfolding mutex_next
lost_wakeup_example = lost_wakeup 2 {s = two_comes} {t = freed} refl (
    EndlessRuns.next 2 0 (λ e. refl)
      (EndlessRuns.next 2 0 (λ e. refl) (EndlessRuns.next 0 0 (λ e. refl) EndlessRuns.begin)))

freed_lem : freed.val ≡ 0
unfolding mutex_next
freed_lem = refl

-- A signal, then a wait that takes it.
abbrev signalled_once : EventSystem
signalled_once =
    event_next full_host
      (event_next full_host
        (event_next full_host (event_next full_host fresh_event 0 EventCall.signal 0) 0
          EventCall.signal 0)
        1 EventCall.wait 0)
      1 EventCall.wait 0

signals_conserved_example :
    signalled_once.signalled
    ≡ signalled_once.waited + signalled_once.dropped + event_count signalled_once.val
signals_conserved_example = signals_conserved {host = full_host} {s = signalled_once} (
    EventRuns.later 1 EventCall.wait 0 (
      EventRuns.later 1 EventCall.wait 0 (
        EventRuns.later 0 EventCall.signal 0
          (EventRuns.later 0 EventCall.signal 0 EventRuns.start))))

signalled_once_lem :
    (signalled_once.signalled ≡ 1) × (signalled_once.waited ≡ 1) × (signalled_once.val ≡ 0)
unfolding event_next
signalled_once_lem = (refl, refl, refl)
