-- ===== src/Sync/Exclusion.antt =====
-- core/exec_impl.h: at most one thread possesses a mutex.
use mathlib.Core.Bool.{false≢true}
use mathlib.Core.Path.{subst}
use lai.Base.{
  ℕ, ◌≡◌, ◌≢◌, ◌⊎◌, inl, inr, refl, sym, ap, ◌∙◌, Bool, true, false, ◌==◌, ==_self, ==_ne,
  if◌then◌else◌, arith,
}
use native.Mathlib.Decide.{ℕ_discrete}
use lai.Sync.{SyncHost, update}
use lai.Sync.Mutex.{
  LockPc, lock_round, unlock_step, mutex_step, MutexSystem, mutex_next, fresh_mutex, MutexRuns,
  start, later,
}

-- The values of the word.
abbrev pub IsWord : ℕ → Type 0
IsWord v = (v ≡ 0) ⊎ (v ≡ 1) ⊎ (v ≡ 3)

abbrev pub possesses : LockPc → Bool
possesses LockPc.held = true
possesses LockPc.idle = false
possesses (LockPc.loop v) = false
possesses (LockPc.blocking v) = false
possesses LockPc.timed_out = false
possesses LockPc.broken = false

-- What a thread knows of the word, and that it has not panicked.
abbrev pub Sound : LockPc → Type 0
Sound (LockPc.loop v) = IsWord v
Sound (LockPc.blocking v) = IsWord v
Sound LockPc.broken = ⊥
Sound LockPc.idle = Unit
Sound LockPc.held = Unit
Sound LockPc.timed_out = Unit

-- What a step does to possession.
data Transfer (val : ℕ) (p : LockPc) (val' : ℕ) (p' : LockPc) : Type 0 where
  kept :
      possesses p' ≡ possesses p
      → (val ≡ 0 → val' ≡ 0)
      → (val' ≡ 0 → val ≡ 0)
      → Transfer val p val' p'
  taken : val ≡ 0 → val' ≢ 0 → Transfer val p val' p'
  freed : possesses p ≡ true → possesses p' ≡ false → val' ≡ 0 → Transfer val p val' p'

abbrev pub full_host : SyncHost
full_host = record { has_wait = true; has_wake = true }

abbrev Good : ℕ → LockPc → ℕ × LockPc → Type 0
Good val p r = IsWord r.0 × Sound r.1 × Transfer val p r.0 r.1

lock_round_lem :
    (val v : ℕ) → IsWord val → IsWord v → Good val (LockPc.loop v) (lock_round full_host val v)
unfolding lock_round
lock_round_lem val v (inl e) (inl f) = rw (e, f) (inr (inl refl), tt, taken refl (λ z. omega arith))
lock_round_lem val v (inl e) (inr (inl f)) =
    rw (e, f) (inl refl, inl refl, kept refl (λ z. z) (λ z. z))
lock_round_lem val v (inl e) (inr (inr f)) =
    rw (e, f) (inl refl, inr (inr refl), kept refl (λ z. z) (λ z. z))
lock_round_lem val v (inr (inl e)) (inl f) =
    rw (e, f) (inr (inl refl), inr (inl refl), kept refl (λ z. z) (λ z. z))
lock_round_lem val v (inr (inl e)) (inr (inl f)) =
    rw (e, f)
      (
        inr (inr refl),
        inr (inl refl),
        kept refl (λ z. absurd (omega arith)) (λ z. absurd (omega arith)),
      )
lock_round_lem val v (inr (inl e)) (inr (inr f)) =
    rw (e, f) (inr (inl refl), inr (inr refl), kept refl (λ z. z) (λ z. z))
lock_round_lem val v (inr (inr e)) (inl f) =
    rw (e, f) (inr (inr refl), inr (inr refl), kept refl (λ z. z) (λ z. z))
lock_round_lem val v (inr (inr e)) (inr (inl f)) =
    rw (e, f) (inr (inr refl), inr (inr refl), kept refl (λ z. z) (λ z. z))
lock_round_lem val v (inr (inr e)) (inr (inr f)) =
    rw (e, f) (inr (inr refl), inr (inr refl), kept refl (λ z. z) (λ z. z))

unlock_step_lem :
    (val : ℕ) → IsWord val → val ≢ 0 → Good val LockPc.held (unlock_step full_host val)
unfolding unlock_step
unlock_step_lem val (inl e) some_ = absurd (some_ e)
unlock_step_lem val (inr (inl e)) some_ = rw e (inl refl, tt, freed refl refl refl)
unlock_step_lem val (inr (inr e)) some_ = rw e (inl refl, tt, freed refl refl refl)

blocking_lem :
    (val v : ℕ) (waited : Bool)
    → IsWord val
    → IsWord v
    → Good val (LockPc.blocking v) (val, (if waited then LockPc.loop v else LockPc.timed_out))
blocking_lem val v true w k = (w, k, kept refl (λ z. z) (λ z. z))
blocking_lem val v false w k = (w, tt, kept refl (λ z. z) (λ z. z))

mutex_step_lem :
    (result val : ℕ) (p : LockPc)
    → IsWord val
    → Sound p
    → (possesses p ≡ true → val ≢ 0)
    → Good val p (mutex_step full_host result val p)
unfolding mutex_step
mutex_step_lem result val LockPc.idle w k own = (w, w, kept refl (λ z. z) (λ z. z))
mutex_step_lem result val (LockPc.loop v) w k own = lock_round_lem val v w k
mutex_step_lem result val (LockPc.blocking v) w k own = blocking_lem val v (result == 0) w k
mutex_step_lem result val LockPc.held w k own = unlock_step_lem val w (own refl)
mutex_step_lem result val LockPc.timed_out w k own = (w, tt, kept refl (λ z. z) (λ z. z))
mutex_step_lem result val LockPc.broken w k own = absurd k

-- The invariant of a mutex and its threads.
record IsMutex (s : MutexSystem) : Type 0 where
  word : IsWord s.val
  sound : (i : ℕ) → Sound (s.pc i)
  owned : (i : ℕ) → possesses (s.pc i) ≡ true → s.val ≢ 0
  alone : (i j : ℕ) → possesses (s.pc i) ≡ true → possesses (s.pc j) ≡ true → i ≡ j

pub update_self : (f : ℕ → LockPc) (i j : ℕ) (p : LockPc) → j ≡ i → update f i p j ≡ p
update_self f i j p e = rw (e, ==_self i) refl

update_other : (f : ℕ → LockPc) (i j : ℕ) (p : LockPc) → j ≢ i → update f i p j ≡ f j
update_other f i j p ne = rw (==_ne j i ne) refl

-- A property of one thread after the step of thread `i`.
update-All :
    (P : LockPc → Type 0) (f : ℕ → LockPc) (i j : ℕ) (p : LockPc)
    → P p
    → (j ≢ i → P (f j))
    → P (update f i p j)
update-All P f i j p here there = elim (ℕ_discrete j i) [
  | yes e ↦ subst P (sym (update_self f i j p e)) here
  | no ne ↦ subst P (sym (update_other f i j p ne)) (there ne)
]

-- Who possesses the mutex after the step of thread `i`: that thread, or one that did before.
owner_after :
    (f : ℕ → LockPc) (i j : ℕ) (p : LockPc)
    → possesses (update f i p j) ≡ true
    → ((j ≡ i) × (possesses p ≡ true)) ⊎ ((j ≢ i) × (possesses (f j) ≡ true))
owner_after f i j p own = elim (ℕ_discrete j i) [
  | yes e ↦ inl (e, sym (ap possesses (update_self f i j p e)) ∙ own)
  | no ne ↦ inr (ne, sym (ap possesses (update_other f i j p ne)) ∙ own)
]

module _ (s : MutexSystem) (inv : IsMutex s) (i val' : ℕ) (p' : LockPc) where
  abbrev after : MutexSystem
  after = record { val = val'; pc = update s.pc i p' }

  -- Only the thread of the step possesses the mutex, when nobody did before.
  taken_by : s.val ≡ 0 → (j : ℕ) → possesses (after.pc j) ≡ true → j ≡ i
  taken_by free j own = elim (owner_after s.pc i j p' own) [
    | inl here ↦ here.0
    | inr there ↦ absurd (inv.owned j there.1 free)
  ]

  owned_before :
      possesses p' ≡ possesses (s.pc i)
      → (j : ℕ) → possesses (after.pc j) ≡ true
      → possesses (s.pc j) ≡ true
  owned_before same j own = elim (owner_after s.pc i j p' own) [
    | inl here ↦ ap (λ t. possesses (s.pc t)) here.0 ∙ sym same ∙ here.1
    | inr there ↦ there.1
  ]

  freed_by :
      possesses (s.pc i) ≡ true → possesses p' ≡ false → (j : ℕ) → ¬ (possesses (after.pc j) ≡ true)
  freed_by mine gone j own = elim (owner_after s.pc i j p' own) [
    | inl here ↦ false≢true (sym gone ∙ here.1)
    | inr there ↦ there.0 (inv.alone j i there.1 mine)
  ]

  after-Sound : Sound p' → (j : ℕ) → Sound (after.pc j)
  after-Sound k j = update-All Sound s.pc i j p' k (λ _. inv.sound j)

  after-IsMutex : IsWord val' → Sound p' → Transfer s.val (s.pc i) val' p' → IsMutex after
  after-IsMutex w k (kept same zero_ back) = record {
    word = w;
    sound = after-Sound k;
    owned = λ j own z. inv.owned j (owned_before same j own) (back z);
    alone =
        λ j l own_j own_l. inv.alone j l (owned_before same j own_j) (owned_before same l own_l);
  }
  after-IsMutex w k (taken free busy) = record {
    word = w;
    sound = after-Sound k;
    owned = λ j own z. busy z;
    alone = λ j l own_j own_l. taken_by free j own_j ∙ sym (taken_by free l own_l);
  }
  after-IsMutex w k (freed mine gone z) = record {
    word = w;
    sound = after-Sound k;
    owned = λ j own _. freed_by mine gone j own;
    alone = λ j l own_j own_l. absurd (freed_by mine gone j own_j);
  }

next-IsMutex :
    (s : MutexSystem) (i result : ℕ) → IsMutex s → IsMutex (mutex_next full_host s i result)
unfolding mutex_next
next-IsMutex s i result inv =
    let (w, k, t) = mutex_step_lem result s.val (s.pc i) inv.word (inv.sound i) (inv.owned i) in
    let r = mutex_step full_host result s.val (s.pc i) in after-IsMutex s inv i r.0 r.1 w k t

fresh-IsMutex : IsMutex fresh_mutex
fresh-IsMutex = record {
  word = inl refl;
  sound = λ i. tt;
  owned = λ i own. absurd (false≢true own);
  alone = λ i j own _. absurd (false≢true own);
}

runs-IsMutex : {s : MutexSystem} → MutexRuns full_host fresh_mutex s → IsMutex s
runs-IsMutex start = fresh-IsMutex
runs-IsMutex (later {t} i result r) = next-IsMutex t i result (runs-IsMutex r)

-- In every run of any number of threads that lock and unlock a mutex which is free at first, in
-- any order of their atomic accesses, with a host that has the functions for waiting: two threads
-- that possess the mutex are the same, and no thread has ended in a panic.
pub mutual_exclusion :
    {s : MutexSystem}
    → MutexRuns full_host fresh_mutex s
    → ((i j : ℕ) → possesses (s.pc i) ≡ true → possesses (s.pc j) ≡ true → i ≡ j)
      × ((i : ℕ) → s.pc i ≢ LockPc.broken)
mutual_exclusion {s} runs =
    let inv = runs-IsMutex runs in (inv.alone, λ i e. subst Sound e (inv.sound i))
