-- ===== src/PcBios/Scan.antt =====
-- helpers/pc-bios.c: the search in a window finds the first root pointer.
use mathlib.Core.Path.{subst}
use native.Mathlib.Decide.{ℕ_discrete, dec_lt}
use lai.Base.{
  ℕ, zero, suc, ◌+◌, ◌*◌, ◌≤◌, ◌<◌, ◌≡◌, ◌⊎◌, inl, inr, refl, ap, ◌∙◌, List, length, ok, arith,
  lt→ltb, le→ltb, ApiError, no_error, end_reached,
}
use lai.PcBios.{RsdpInfo, detect_loop, detect_rsdp_within}
use lai.PcBios.Rounds.{IsRsdp, Describes, examine_lem}

module _ (window : List ℕ) (base size : ℕ) where
  -- No root pointer stands at the first `k` places, which are 16 bytes apart.
  abbrev pub NoneBefore : ℕ → Type 0
  NoneBefore k = (j : ℕ) → j < k → ¬ IsRsdp window (16 * j)

  -- The first root pointer of the window, or the news that there is none.
  abbrev pub Outcome : ApiError × RsdpInfo → Type 0
  Outcome out =
      ((k : ℕ) × (out.0 ≡ no_error)
        × (16 * k < size)
        × IsRsdp window (16 * k)
        × Describes window base (16 * k) out.1
        × NoneBefore k)
      ⊎ ((out.0 ≡ end_reached) × ((j : ℕ) → 16 * j < size → ¬ IsRsdp window (16 * j)))

module _ (window : List ℕ) (base size : ℕ) (reach : size + 33 ≤ length window) where
  NoneBefore-suc :
      (k : ℕ)
      → NoneBefore window base size k
      → ¬ IsRsdp window (16 * k)
      → NoneBefore window base size (suc k)
  NoneBefore-suc k before here j lt = elim (ℕ_discrete j k) [
    | yes e ↦ λ r. here (subst (λ (t : ℕ). IsRsdp window (16 * t)) e r)
    | no ne ↦ before j (omega arith)
  ]

  -- The search after its last round.
  detect_end :
      (fuel k : ℕ) (info : RsdpInfo)
      → size ≤ 16 * k
      → NoneBefore window base size k
      → (out : ApiError × RsdpInfo) × (detect_loop (suc fuel) window base size (16 * k) info
          ≡ ok out)
        × Outcome window base size out
  unfolding detect_loop
  detect_end fuel k info done before = (
    (end_reached, info),
    rw (detect_loop, le→ltb (16 * k) size done) refl,
    inr (refl, λ j lt. before j (omega arith)),
  )

  detect_loop_lem :
      (fuel k : ℕ) (info : RsdpInfo)
      → size ≤ fuel + 16 * k
      → NoneBefore window base size k
      → (out : ApiError × RsdpInfo) × (detect_loop (suc fuel) window base size (16 * k) info
          ≡ ok out)
        × Outcome window base size out
  unfolding detect_loop
  detect_loop_lem zero k info enough before = detect_end zero k info (omega (arith, enough)) before
  detect_loop_lem (suc fuel) k info enough before = elim (dec_lt (16 * k) size) [
    | no done ↦ detect_end (suc fuel) k info (omega arith) before
    | yes more ↦ elim (examine_lem window base (16 * k) (omega arith) info) [
      | inl (found, run, there, described) ↦ (
        (no_error, found),
        rw (detect_loop, lt→ltb (16 * k) size more, run) refl,
        inl (k, refl, more, there, described, before),
      )
      | inr (info', run, absent) ↦
          let (out, rest, outcome) =
            detect_loop_lem fuel (suc k) info' (omega arith) (NoneBefore-suc k before absent) in
          let next : 16 * k + 16 ≡ 16 * suc k = omega arith in
          (
            out,
            rw (detect_loop, lt→ltb (16 * k) size more, run)
                (ap (λ (t : ℕ). detect_loop (suc fuel) window base size t info') next ∙ rest),
            outcome,
          )
    ]
  ]

  -- When the mapping lets the code read 33 bytes beyond the window, lai_bios_detect_rsdp_within
  -- returns: LAI_ERROR_NONE with the address, the version and the table of the first root pointer
  -- in the window (at a multiple of 16, with the signature and with good checksums), or
  -- LAI_ERROR_END_REACHED when the window has none.
  pub detect_rsdp_within-Outcome :
      (info : RsdpInfo)
      → (out : ApiError × RsdpInfo) × (detect_rsdp_within window base size info ≡ ok out)
        × Outcome window base size out
  unfolding detect_rsdp_within
  detect_rsdp_within-Outcome info =
      let none_yet : NoneBefore window base size 0 = λ j lt. absurd (omega arith) in
      let (out, run, outcome) = detect_loop_lem size 0 info (omega arith) none_yet in
      let start : size + 1 ≡ suc size = omega arith in
      (out, ap (λ (t : ℕ). detect_loop t window base size 0 info) start ∙ run, outcome)
