-- ===== src/Sync/Event.antt =====
-- core/exec_impl.h: `lai_event_wait`, `lai_event_signal` and `lai_event_reset`.
use lai.Base.{ℕ, ◌+◌, ◌-◌, ◌/◌, ◌%◌, ◌^◌, Bool, ◌==◌, if◌then◌else◌, not}
use lai.Sync.{SyncHost, update}

-- `v & LAI_EVENT_COUNT`
abbrev pub event_count : ℕ → ℕ
event_count v = v % 2 ^ 31

-- `LAI_EVENT_WAITERS`, and whether `v & LAI_EVENT_WAITERS` is not 0.
abbrev pub event_waiters : ℕ
event_waiters = 2 ^ 31

abbrev pub has_waiters : ℕ → Bool
has_waiters v = v / 2 ^ 31 % 2 == 1

-- Where a thread stands: in no call, at the top of the loop of a function with `v` loaded, in the
-- call of `laihost_sync_wait`, returned from `lai_event_wait` with 1, or ended by a panic.
pub data EventPc : Type 0 where
  idle : EventPc
  waits blocked signals resets : (v : ℕ) → EventPc
  timed_out broken : EventPc

pub data EventCall : Type 0 where
  wait signal reset : EventCall

-- What a step does to the count, apart from its panics.
pub data Effect : Type 0 where
  nothing took put cleared : Effect

abbrev pub Round : Type 0
Round = ℕ × EventPc × Effect

-- The loop of `lai_event_wait` up to its atomic access.
unfoldable pub wait_round : SyncHost → (val v : ℕ) → Round
wait_round host val v =
    if not (event_count v == 0)
    then (if has_waiters v
        then (val, broken, nothing)
        else if val == v
        then (v - 1, idle, took)
        else (val, waits val, nothing))
    else if has_waiters v
    then (val, (if host.has_wait then blocked v else broken), nothing)
    else if val == v
    then (event_waiters, (if host.has_wait then blocked v else broken), nothing)
    else (val, waits val, nothing)

-- The loop of `lai_event_signal`.
unfoldable pub signal_round : SyncHost → (val v : ℕ) → Round
signal_round host val v =
    if not (has_waiters v)
    then (if has_waiters (v + 1)
        then (val, broken, nothing)
        else if val == v
        then (v + 1, idle, put)
        else (val, signals val, nothing))
    else if not (event_count v == 0)
    then (val, broken, nothing)
    else if val == v
    then (1, (if host.has_wake then idle else broken), put)
    else (val, signals val, nothing)

-- The loop of `lai_event_reset`.
unfoldable pub reset_round : (val v : ℕ) → Round
reset_round val v =
    if has_waiters v
    then (val, (if event_count v == 0 then idle else broken), nothing)
    else if event_count v == 0
    then (val, idle, nothing)
    else if val == v
    then (0, idle, cleared)
    else (val, resets val, nothing)

-- The next step of a thread; `call` is what it calls if it is in no call, and `result` what
-- `laihost_sync_wait` returns in this step.
unfoldable pub event_step : SyncHost → EventCall → (result val : ℕ) → EventPc → Round
unfolding wait_round signal_round reset_round
event_step host EventCall.wait result val idle = (val, waits val, nothing)
event_step host EventCall.signal result val idle = (val, signals val, nothing)
event_step host EventCall.reset result val idle = (val, resets val, nothing)
event_step host call result val (waits v) = wait_round host val v
event_step host call result val (blocked v) =
    (val, (if result == 0 then waits v else timed_out), nothing)
event_step host call result val (signals v) = signal_round host val v
event_step host call result val (resets v) = reset_round val v
event_step host call result val timed_out = (val, idle, nothing)
event_step host call result val broken = (val, broken, nothing)

-- The word and the threads, with the numbers of signals, of waits that have returned and of signals
-- that resets have cleared.
pub record EventSystem : Type 0 where
  pub val : ℕ
  pub pc : ℕ → EventPc
  pub signalled : ℕ
  pub waited : ℕ
  pub dropped : ℕ

unfoldable pub tally : Effect → EventSystem → EventSystem
tally nothing s = s
tally took s = record s { waited = s.waited + 1 }
tally put s = record s { signalled = s.signalled + 1 }
tally cleared s = record s { dropped = s.dropped + event_count s.val }

unfoldable pub event_next :
    SyncHost → EventSystem → (i : ℕ) → EventCall → (result : ℕ) → EventSystem
unfolding event_step tally
event_next host s i call result =
    let (val, pc, effect) = event_step host call result s.val (s.pc i) in
    record (tally effect s) { val = val; pc = update s.pc i pc }

abbrev pub fresh_event : EventSystem
fresh_event = record { val = 0; pc = λ _. idle; signalled = 0; waited = 0; dropped = 0 }

pub data EventRuns (host : SyncHost) : EventSystem → Type 0 where
  start : EventRuns host fresh_event
  later :
      {s : EventSystem} (i : ℕ) (call : EventCall) (result : ℕ)
      → EventRuns host s
      → EventRuns host (event_next host s i call result)
