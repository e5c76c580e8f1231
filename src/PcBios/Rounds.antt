-- ===== src/PcBios/Rounds.antt =====
-- helpers/pc-bios.c: what a root pointer is, and that one round of the search tells whether there
-- is one.
use native.Mathlib.Decide.{ℕ_discrete}
use lai.Base.{
  ℕ, zero, suc, ◌+◌, ◌*◌, ◌%◌, ◌^◌, ◌≤◌, ◌<◌, ◌≡◌, ◌≢◌, ◌⊎◌, inl, inr, refl, ap, ◌∙◌, Bool, true,
  false, ◌&&◌, ◌==◌, ==_ne, ==_self, List, [], ◌∷◌, length, get_or, read-eq-ok, u8, u64, Run, ok,
  ◌>>=◌, arith,
}
use lai.PcBios.{signature, calc_checksum, same_memory, load, RsdpInfo, examine_xsdp, examine}

abbrev pub byte_at : List ℕ → ℕ → ℕ
byte_at window i = get_or window i 0

-- The sum of so many bytes.
abbrev pub sum_at : List ℕ → (ptr size : ℕ) → ℕ
sum_at window ptr zero = 0
sum_at window ptr (suc size) = byte_at window ptr + sum_at window (ptr + 1) size

-- The number that so many bytes write, the lowest first.
abbrev pub number_at : List ℕ → (ptr size : ℕ) → ℕ
number_at window ptr zero = 0
number_at window ptr (suc size) = byte_at window ptr + 256 * number_at window (ptr + 1) size

-- The text at `ptr`.
abbrev pub Reads : List ℕ → ℕ → List ℕ → Type 0
Reads window ptr [] = Unit
Reads window ptr (c ∷ cs) = (byte_at window ptr ≡ c) × Reads window (ptr + 1) cs

-- The conditions of ACPI on a root pointer: the signature, the checksum of its first 20 bytes, and
-- that of all its bytes when it has a revision.
pub record IsRsdp (window : List ℕ) (off : ℕ) : Type 0 where
  pub signed : Reads window off signature
  pub summed : sum_at window off 20 % 2 ^ 8 ≡ 0
  pub extended : (byte_at window (off + 15) ≡ 0) ⊎ (sum_at window off 33 % 2 ^ 8 ≡ 0)

-- What the code says of the root pointer at `off`.
abbrev pub Describes : List ℕ → (base off : ℕ) → RsdpInfo → Type 0
Describes window base off info =
    (info.rsdp_address ≡ u64 (base + off))
    × (((byte_at window (off + 15) ≡ 0)
          × (info.acpi_version ≡ 1)
          × (info.rsdt_address ≡ number_at window (off + 16) 4)
          × (info.xsdt_address ≡ 0))
        ⊎ ((byte_at window (off + 15) ≢ 0)
            × (info.acpi_version ≡ 2)
            × (info.rsdt_address ≡ 0)
            × (info.xsdt_address ≡ number_at window (off + 24) 8)))

calc_checksum_lem :
    (window : List ℕ) (ptr size sum : ℕ)
    → ptr + size ≤ length window
    → sum < 2 ^ 8
    → calc_checksum window ptr size sum ≡ ok ((sum + sum_at window ptr size) % 2 ^ 8)
unfolding calc_checksum
calc_checksum_lem window ptr zero sum fits lt = ap (λ (t : ℕ). ok t) (omega arith)
calc_checksum_lem window ptr (suc size) sum fits lt =
    rw (calc_checksum, read-eq-ok window ptr 0 (omega arith))
      (calc_checksum_lem window (ptr + 1) size (u8 (sum + byte_at window ptr)) (omega arith)
          (omega arith)
        ∙ ap (λ (t : ℕ). ok t) (omega arith))

checksum-sum_at :
    (window : List ℕ) (ptr size total : ℕ)
    → ptr + size ≤ length window
    → sum_at window ptr size % 2 ^ 8 ≡ total
    → calc_checksum window ptr size 0 ≡ ok total
checksum-sum_at window ptr size total fits e =
    let same : (0 + sum_at window ptr size) % 2 ^ 8 ≡ total = omega (arith, e) in
    calc_checksum_lem window ptr size 0 fits (omega arith) ∙ ap (λ (t : ℕ). ok t) same

load_lem :
    (window : List ℕ) (ptr size : ℕ)
    → ptr + size ≤ length window
    → load window ptr size ≡ ok (number_at window ptr size)
unfolding load
load_lem window ptr zero fits = refl
load_lem window ptr (suc size) fits =
    rw (load, read-eq-ok window ptr 0 (omega arith), load_lem window (ptr + 1) size (omega arith))
      refl

and_false : (b : Bool) → (b && false) ≡ false
and_false true = refl
and_false false = refl

-- The answer of `memcmp`.
same_memory_lem :
    (window : List ℕ) (ptr : ℕ) (text : List ℕ)
    → ptr + length text ≤ length window
    → ((same_memory window ptr text ≡ ok true) × Reads window ptr text)
      ⊎ ((same_memory window ptr text ≡ ok false) × ¬ Reads window ptr text)
unfolding same_memory
same_memory_lem window ptr [] fits = inl (refl, tt)
same_memory_lem window ptr (c ∷ cs) fits =
    elim (same_memory_lem window (ptr + 1) cs (omega (arith, fits))) [
      | inl (run, reads) ↦ elim (ℕ_discrete (byte_at window ptr) c) [
        | yes e ↦ inl (
          rw (same_memory, read-eq-ok window ptr 0 (omega (arith, fits)), run, e, ==_self c) refl,
          (e, reads),
        )
        | no ne ↦ inr (
          rw
              (
                same_memory,
                read-eq-ok window ptr 0 (omega (arith, fits)),
                run,
                ==_ne (byte_at window ptr) c ne,
              )
              refl,
          λ r. ne r.0,
        )
      ]
      | inr (run, differs) ↦ inr (
        rw
            (
              same_memory,
              read-eq-ok window ptr 0 (omega (arith, fits)),
              run,
              and_false (byte_at window ptr == c),
            )
            refl,
        λ r. differs r.1,
      )
    ]

module _ (window : List ℕ) (base off : ℕ) (fits : off + 33 ≤ length window) where
  -- What a round says.
  abbrev pub Round : Run (Bool × RsdpInfo) → Type 0
  Round out =
      ((info : RsdpInfo) × (out ≡ ok (true, info))
        × IsRsdp window off
        × Describes window base off info)
      ⊎ ((info : RsdpInfo) × (out ≡ ok (false, info)) × ¬ IsRsdp window off)

  examine_xsdp_lem :
      (info : RsdpInfo)
      → info.rsdp_address ≡ u64 (base + off)
      → Reads window off signature
      → sum_at window off 20 % 2 ^ 8 ≡ 0
      → byte_at window (off + 15) ≢ 0
      → Round (examine_xsdp window off info)
  unfolding examine_xsdp
  examine_xsdp_lem info at signed summed revised =
      elim (ℕ_discrete (sum_at window off 33 % 2 ^ 8) 0) [
        | yes e ↦ inl (
          record info {
            acpi_version = 2;
            rsdt_address = 0;
            xsdt_address = number_at window (off + 24) 8;
          },
          rw
              (
                examine_xsdp,
                checksum-sum_at window off 33 0 fits e,
                load_lem window (off + 24) 8 (omega (arith, fits)),
              )
              refl,
          record { signed = signed; summed = summed; extended = inr e },
          (at, inr (revised, refl, refl, refl)),
        )
        | no ne ↦ inr (
          info,
          rw
              (
                examine_xsdp,
                checksum-sum_at window off 33 (sum_at window off 33 % 2 ^ 8) fits refl,
                ◌>>=◌,
                ==_ne (sum_at window off 33 % 2 ^ 8) 0 ne,
              )
              refl,
          λ r. elim r.extended [ inl old ↦ revised old | inr e ↦ ne e ],
        )
      ]

  -- A round after the signature and the checksum have been found good.
  revision_lem :
      (info : RsdpInfo)
      → same_memory window off signature ≡ ok true
      → Reads window off signature
      → sum_at window off 20 % 2 ^ 8 ≡ 0
      → Round (examine window base off info)
  unfolding examine
  revision_lem info same signed summed = elim (ℕ_discrete (byte_at window (off + 15)) 0) [
    | yes e ↦ inl (
      record info {
        acpi_version = 1;
        rsdp_address = u64 (base + off);
        rsdt_address = number_at window (off + 16) 4;
        xsdt_address = 0;
      },
      rw
          (
            examine,
            same,
            checksum-sum_at window off 20 0 (omega (arith, fits)) summed,
            read-eq-ok window (off + 15) 0 (omega (arith, fits)),
            e,
            load_lem window (off + 16) 4 (omega (arith, fits)),
          )
          refl,
      record { signed = signed; summed = summed; extended = inl e },
      (refl, inl (e, refl, refl, refl)),
    )
    | no ne ↦
        rw
          (
            examine,
            same,
            checksum-sum_at window off 20 0 (omega (arith, fits)) summed,
            read-eq-ok window (off + 15) 0 (omega (arith, fits)),
            ◌>>=◌,
            ==_ne (byte_at window (off + 15)) 0 ne,
          )
          (examine_xsdp_lem (record info { rsdp_address = u64 (base + off) }) refl signed summed ne)
  ]

  pub examine_lem : (info : RsdpInfo) → Round (examine window base off info)
  unfolding examine
  examine_lem info = elim (same_memory_lem window off signature (omega (arith, fits))) [
    | inr (run, differs) ↦ inr (info, rw (examine, run) refl, λ r. differs r.signed)
    | inl (run, reads) ↦ elim (ℕ_discrete (sum_at window off 20 % 2 ^ 8) 0) [
      | yes e ↦ revision_lem info run reads e
      | no ne ↦ inr (
        info,
        rw
            (
              examine,
              run,
              checksum-sum_at window off 20 (sum_at window off 20 % 2 ^ 8) (omega (arith, fits))
                  refl,
              ◌>>=◌,
              ==_ne (sum_at window off 20 % 2 ^ 8) 0 ne,
            )
            refl,
        λ r. ne r.summed,
      )
    ]
  ]
