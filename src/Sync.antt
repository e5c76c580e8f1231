-- ===== src/Sync.antt =====
-- core/exec_impl.h: mutexes and events, `struct lai_sync_state` and the functions that lock, wait
-- and signal. One atomic access is one step of a thread; the threads take steps in any order.
pub mod Mutex
pub mod Exclusion
pub mod Lost
pub mod Event
pub mod Signals
use lai.Base.{ℕ, Bool, ◌==◌, if◌then◌else◌}

-- Which of its functions the host has: `laihost_sync_wait` and `laihost_sync_wake`.
pub record SyncHost : Type 0 where
  pub has_wait : Bool
  pub has_wake : Bool

abbrev pub update {ℓ} : {A : Type ℓ} → (ℕ → A) → ℕ → A → ℕ → A
update f i a j = if j == i then a else f j
