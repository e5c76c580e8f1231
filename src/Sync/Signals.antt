-- ===== src/Sync/Signals.antt =====
-- core/exec_impl.h: an event neither loses nor invents signals.
use lai.Base.{
  ℕ, ◌+◌, ◌/◌, ◌%◌, ◌^◌, ◌≤◌, ◌≡◌, inl, inr, refl, sym, ap, ◌∙◌, Bool, true, false, ◌==◌, ==_true,
  ==_false, if◌then◌else◌, Bool-cases, arith,
}
use lai.Sync.{SyncHost, update}
use lai.Sync.Event.{
  event_count, has_waiters, EventPc, EventCall, Effect, Round, wait_round, signal_round,
  reset_round, event_step, EventSystem, tally, event_next, EventRuns, start, later,
}

-- A value of the word: a count, or the bit of the waiters.
abbrev pub IsWord : ℕ → Type 0
IsWord v = v ≤ 2 ^ 31

abbrev Known : EventPc → Type 0
Known EventPc.idle = Unit
Known (EventPc.waits v) = IsWord v
Known (EventPc.blocked v) = IsWord v
Known (EventPc.signals v) = IsWord v
Known (EventPc.resets v) = IsWord v
Known EventPc.timed_out = Unit
Known EventPc.broken = Unit

abbrev spent : Effect → ℕ → ℕ
spent Effect.nothing val = 0
spent Effect.took val = 1
spent Effect.put val = 0
spent Effect.cleared val = event_count val

abbrev gained : Effect → ℕ
gained Effect.nothing = 0
gained Effect.took = 0
gained Effect.put = 1
gained Effect.cleared = 0

-- A step pays for what it takes.
abbrev Balanced : ℕ → Round → Type 0
Balanced val r =
    IsWord r.0 × Known r.1 × (event_count r.0 + spent r.2 val ≡ event_count val + gained r.2)

blocked-Known :
    (b : Bool) (v : ℕ) → IsWord v → Known (if b then EventPc.blocked v else EventPc.broken)
blocked-Known true v k = k
blocked-Known false v k = tt

wait_round-Balanced :
    (host : SyncHost) (val v : ℕ) → IsWord val → IsWord v → Balanced val (wait_round host val v)
unfolding wait_round
wait_round-Balanced host val v w k = elim (Bool-cases (event_count v == 0)) [
  | inl none_left ↦ elim (Bool-cases (has_waiters v)) [
    | inl waiters ↦ rw (none_left, waiters) (w, blocked-Known host.has_wait v k, refl)
    | inr alone ↦ elim (Bool-cases (val == v)) [
      | inl same ↦
          rw (none_left, alone, same)
            (
              omega arith,
              blocked-Known host.has_wait v k,
              omega (arith, ==_true val v same, ==_true (event_count v) 0 none_left),
            )
      | inr differs ↦ rw (none_left, alone, differs) (w, w, refl)
    ]
  ]
  | inr some_left ↦ elim (Bool-cases (has_waiters v)) [
    | inl waiters ↦ rw (some_left, waiters) (w, tt, refl)
    | inr alone ↦ elim (Bool-cases (val == v)) [
      | inl same ↦
          rw (some_left, alone, same)
            (
              omega (arith, k),
              tt,
              omega (arith, k, ==_true val v same, ==_false (event_count v) 0 some_left),
            )
      | inr differs ↦ rw (some_left, alone, differs) (w, w, refl)
    ]
  ]
]

woken-Known : (b : Bool) → Known (if b then EventPc.idle else EventPc.broken)
woken-Known true = tt
woken-Known false = tt

signal-IsWord :
    (v : ℕ) → IsWord v → has_waiters v ≡ false → has_waiters (v + 1) ≡ false → IsWord (v + 1)
signal-IsWord v k quiet room = omega (arith, ==_false (v / 2 ^ 31 % 2) 1 quiet)

signal_count :
    (v : ℕ)
    → IsWord (v + 1)
    → has_waiters (v + 1) ≡ false
    → event_count (v + 1) + 0 ≡ event_count v + 1
signal_count v k room = omega (arith, ==_false ((v + 1) / 2 ^ 31 % 2) 1 room)

signal_round-Balanced :
    (host : SyncHost) (val v : ℕ) → IsWord val → IsWord v → Balanced val (signal_round host val v)
unfolding signal_round
signal_round-Balanced host val v w k = elim (Bool-cases (has_waiters v)) [
  | inr quiet ↦ elim (Bool-cases (has_waiters (v + 1))) [
    | inl full ↦ rw (quiet, full) (w, tt, refl)
    | inr room ↦ elim (Bool-cases (val == v)) [
      | inl same ↦
          rw (quiet, room, same)
            (
              signal-IsWord v k quiet room,
              tt,
              signal_count v (signal-IsWord v k quiet room) room
                  ∙ ap (λ (t : ℕ). event_count t + 1) (sym (==_true val v same)),
            )
      | inr differs ↦ rw (quiet, room, differs) (w, w, refl)
    ]
  ]
  | inl waiters ↦ elim (Bool-cases (event_count v == 0)) [
    | inr bad ↦ rw (waiters, bad) (w, tt, refl)
    | inl none_left ↦ elim (Bool-cases (val == v)) [
      | inl same ↦
          rw (waiters, none_left, same)
            (
              omega arith,
              woken-Known host.has_wake,
              omega (arith, ==_true val v same, ==_true (event_count v) 0 none_left),
            )
      | inr differs ↦ rw (waiters, none_left, differs) (w, w, refl)
    ]
  ]
]

reset_round-Balanced : (val v : ℕ) → IsWord val → IsWord v → Balanced val (reset_round val v)
unfolding reset_round
reset_round-Balanced val v w k = elim (Bool-cases (has_waiters v)) [
  | inl waiters ↦ rw waiters (w, woken-Known (event_count v == 0), refl)
  | inr quiet ↦ elim (Bool-cases (event_count v == 0)) [
    | inl none_left ↦ rw (quiet, none_left) (w, tt, refl)
    | inr some_left ↦ elim (Bool-cases (val == v)) [
      | inl same ↦ rw (quiet, some_left, same) (omega arith, tt, omega arith)
      | inr differs ↦ rw (quiet, some_left, differs) (w, w, refl)
    ]
  ]
]

waked-Known :
    (b : Bool) (v : ℕ) → IsWord v → Known (if b then EventPc.waits v else EventPc.timed_out)
waked-Known true v k = k
waked-Known false v k = tt

event_step-Balanced :
    (host : SyncHost) (call : EventCall) (result val : ℕ) (p : EventPc)
    → IsWord val
    → Known p
    → Balanced val (event_step host call result val p)
unfolding event_step
event_step-Balanced host EventCall.wait result val EventPc.idle w k = (w, w, refl)
event_step-Balanced host EventCall.signal result val EventPc.idle w k = (w, w, refl)
event_step-Balanced host EventCall.reset result val EventPc.idle w k = (w, w, refl)
event_step-Balanced host call result val (EventPc.waits v) w k = wait_round-Balanced host val v w k
event_step-Balanced host call result val (EventPc.blocked v) w k =
    (w, waked-Known (result == 0) v k, refl)
event_step-Balanced host call result val (EventPc.signals v) w k =
    signal_round-Balanced host val v w k
event_step-Balanced host call result val (EventPc.resets v) w k = reset_round-Balanced val v w k
event_step-Balanced host call result val EventPc.timed_out w k = (w, tt, refl)
event_step-Balanced host call result val EventPc.broken w k = (w, tt, refl)

-- The invariant of an event and its threads.
record IsEvent (s : EventSystem) : Type 0 where
  word : IsWord s.val
  known : (i : ℕ) → Known (s.pc i)
  conserved : s.signalled ≡ s.waited + s.dropped + event_count s.val

update-Known :
    (f : ℕ → EventPc) (i j : ℕ) (p : EventPc) → Known p → Known (f j) → Known (update f i p j)
update-Known f i j p here there = elim (Bool-cases (j == i)) [
  | inl e ↦ rw e here
  | inr ne ↦ rw ne there
]

tally-conserved :
    (effect : Effect) (s : EventSystem) (val' : ℕ)
    → s.signalled ≡ s.waited + s.dropped + event_count s.val
    → event_count val' + spent effect s.val ≡ event_count s.val + gained effect
    → (tally effect s).signalled
      ≡ (tally effect s).waited + (tally effect s).dropped + event_count val'
unfolding tally
tally-conserved Effect.nothing s val' c b = omega (arith, c, b)
tally-conserved Effect.took s val' c b = omega (arith, c, b)
tally-conserved Effect.put s val' c b = omega (arith, c, b)
tally-conserved Effect.cleared s val' c b = omega (arith, c, b)

next-IsEvent :
    (host : SyncHost) (s : EventSystem) (i : ℕ) (call : EventCall) (result : ℕ)
    → IsEvent s
    → IsEvent (event_next host s i call result)
unfolding event_next
next-IsEvent host s i call result inv =
    let r = event_step host call result s.val (s.pc i) in
    let (w, k, b) = event_step-Balanced host call result s.val (s.pc i) inv.word (inv.known i) in
    record {
      word = w;
      known = λ j. update-Known s.pc i j r.1 k (inv.known j);
      conserved = tally-conserved r.2 s r.0 inv.conserved b;
    }

runs-IsEvent : {host : SyncHost} {s : EventSystem} → EventRuns host s → IsEvent s
runs-IsEvent start = record { word = omega arith; known = λ i. tt; conserved = refl }
runs-IsEvent {host} (later {s} i call result r) = next-IsEvent host s i call result (runs-IsEvent r)

-- In every run of any number of threads that wait for, signal and reset an event, in any order of
-- their atomic accesses, the number of signals is the number of waits that have taken one, plus
-- the signals that resets have cleared, plus the count in the word.
pub signals_conserved :
    {host : SyncHost} {s : EventSystem}
    → EventRuns host s
    → s.signalled ≡ s.waited + s.dropped + event_count s.val
signals_conserved r = (runs-IsEvent r).conserved
