-- ===== src/Sync/Mutex.antt =====
-- core/exec_impl.h: `lai_mutex_lock` and `lai_mutex_unlock`.
use lai.Base.{ℕ, ◌/◌, ◌%◌, Bool, ◌&&◌, ◌==◌, if◌then◌else◌, not}
use lai.Sync.{SyncHost, update}

-- Where a thread stands: out of the mutex, at the top of the loop with `v` loaded, in the call of
-- `laihost_sync_wait`, in possession, returned from `lai_mutex_lock` with 1, or ended by a panic.
pub data LockPc : Type 0 where
  idle : LockPc
  loop blocking : (v : ℕ) → LockPc
  held timed_out broken : LockPc

abbrev pub mutex_locked : ℕ
mutex_locked = 1

-- `LAI_MUTEX_LOCKED | LAI_MUTEX_CONTENDED`
abbrev pub mutex_contended : ℕ
mutex_contended = 3

-- `v & ~LAI_MUTEX_BITS`, `v & LAI_MUTEX_LOCKED` and `v & LAI_MUTEX_CONTENDED` are not 0.
abbrev pub has_strange : ℕ → Bool
has_strange v = not (v / 4 == 0)

abbrev pub has_locked : ℕ → Bool
has_locked v = v % 2 == 1

abbrev pub has_contended : ℕ → Bool
has_contended v = v / 2 % 2 == 1

-- One round of the loop of `lai_mutex_lock` up to its atomic access, which compares the value with
-- `v` and loads it when they differ.
unfoldable pub lock_round : SyncHost → (val v : ℕ) → ℕ × LockPc
lock_round host val v =
    if has_strange v
    then (val, broken)
    else if not (has_locked v)
    then (if val == v then (mutex_locked, held) else (val, loop val))
    else if has_contended v
    then (val, (if host.has_wait then blocking v else broken))
    else if val == v
    then (mutex_contended, (if host.has_wait then blocking v else broken))
    else (val, loop val)

-- `lai_mutex_unlock`: the exchange.
unfoldable pub unlock_step : SyncHost → (val : ℕ) → ℕ × LockPc
unlock_step host val =
    if has_strange val
    then (0, broken)
    else if not (has_locked val)
    then (0, broken)
    else if has_contended val && not host.has_wake
    then (0, broken)
    else (0, idle)

-- The next step of a thread; `result` is what `laihost_sync_wait` returns in this step.
unfoldable pub mutex_step : SyncHost → (result val : ℕ) → LockPc → ℕ × LockPc
unfolding lock_round unlock_step
mutex_step host result val idle = (val, loop val)
mutex_step host result val (loop v) = lock_round host val v
mutex_step host result val (blocking v) = (val, (if result == 0 then loop v else timed_out))
mutex_step host result val held = unlock_step host val
mutex_step host result val timed_out = (val, idle)
mutex_step host result val broken = (val, broken)

pub record MutexSystem : Type 0 where
  pub val : ℕ
  pub pc : ℕ → LockPc

unfoldable pub mutex_next : SyncHost → MutexSystem → (i result : ℕ) → MutexSystem
unfolding mutex_step
mutex_next host s i result =
    let (val, pc) = mutex_step host result s.val (s.pc i) in
    record { val = val; pc = update s.pc i pc }

abbrev pub fresh_mutex : MutexSystem
fresh_mutex = record { val = 0; pc = λ _. idle }

-- Runs in which the threads take steps in any order, from `s` on.
pub data MutexRuns (host : SyncHost) (s : MutexSystem) : MutexSystem → Type 0 where
  start : MutexRuns host s s
  later :
      {t : MutexSystem} (i result : ℕ)
      → MutexRuns host s t
      → MutexRuns host s (mutex_next host t i result)
