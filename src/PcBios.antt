-- ===== src/PcBios.antt =====
-- helpers/pc-bios.c: the search for the root pointer of the ACPI tables in a window of memory. The
-- window is the list of the bytes that the mapping of the host lets the code read.
pub mod Rounds
pub mod Scan
use lai.Base.{
  ℕ, zero, suc, ◌+◌, ◌*◌, ◌^◌, Bool, true, false, ◌&&◌, ◌==◌, if◌then◌else◌, List, [], ◌∷◌, u8, u64,
  Run, ok, panic, ensure, read, ◌>>◌, ◌>>=◌, ltb, ApiError, no_error, end_reached,
}

-- `lai_bios_calc_checksum`, with `i` bytes left.
unfoldable pub calc_checksum : List ℕ → (ptr left sum : ℕ) → Run ℕ
calc_checksum window ptr zero sum = ok sum
calc_checksum window ptr (suc left) sum =
    read window ptr >>= λ byte. calc_checksum window (ptr + 1) left (u8 (sum + byte))

-- "RSD PTR "
abbrev pub signature : List ℕ
signature = 0x52 ∷ 0x53 ∷ 0x44 ∷ 0x20 ∷ 0x50 ∷ 0x54 ∷ 0x52 ∷ 0x20 ∷ []

-- The test for a signature: `memcmp` returns 0.
unfoldable pub same_memory : List ℕ → ℕ → List ℕ → Run Bool
same_memory window ptr [] = ok true
same_memory window ptr (c ∷ cs) =
    read window ptr >>= λ byte. same_memory window (ptr + 1) cs >>= λ rest. ok ((byte == c) && rest)

-- A little-endian integer of so many bytes.
unfoldable pub load : List ℕ → (ptr size : ℕ) → Run ℕ
load window ptr zero = ok 0
load window ptr (suc size) =
    read window ptr >>= λ byte. load window (ptr + 1) size >>= λ rest. ok (byte + 256 * rest)

pub record RsdpInfo : Type 0 where
  pub acpi_version : ℕ
  pub rsdp_address : ℕ
  pub rsdt_address : ℕ
  pub xsdt_address : ℕ

-- The second half of a round, when the pointer has a revision.
unfoldable pub examine_xsdp : List ℕ → (off : ℕ) → RsdpInfo → Run (Bool × RsdpInfo)
unfolding calc_checksum load
examine_xsdp window off info = calc_checksum window off 33 0 >>= λ sum. elim (sum == 0) [
  | false ↦ ok (false, info)
  | true ↦ load window (off + 24) 8 >>= λ xsdt.
      ok (true, record info { acpi_version = 2; rsdt_address = 0; xsdt_address = xsdt })
]

-- One round of the search: is there a root pointer at `off`?
unfoldable pub examine : List ℕ → (base off : ℕ) → RsdpInfo → Run (Bool × RsdpInfo)
unfolding calc_checksum same_memory load examine_xsdp
examine window base off info = same_memory window off signature >>= λ same. elim same [
  | false ↦ ok (false, info)
  | true ↦ calc_checksum window off 20 0 >>= λ sum. elim (sum == 0) [
    | false ↦ ok (false, info)
    | true ↦ read window (off + 15) >>= λ revision.
        let found = record info { rsdp_address = u64 (base + off) } in
        elim (revision == 0) [
          | false ↦ examine_xsdp window off found
          | true ↦ load window (off + 16) 4 >>= λ rsdt.
              ok (true, record found { acpi_version = 1; rsdt_address = rsdt; xsdt_address = 0 })
        ]
  ]
]

-- The rounds of `lai_bios_detect_rsdp_within` from `off` on.
unfoldable pub detect_loop :
    ℕ → List ℕ → (base length off : ℕ) → RsdpInfo → Run (ApiError × RsdpInfo)
unfolding examine
detect_loop zero window base length off info = panic
detect_loop (suc fuel) window base length off info = elim (ltb off length) [
  | false ↦ ok (end_reached, info)
  | true ↦ examine window base off info >>= λ round. elim round.0 [
    | true ↦ ok (no_error, round.1)
    | false ↦ detect_loop fuel window base length (off + 16) round.1
  ]
]

unfoldable pub detect_rsdp_within :
    List ℕ → (base length : ℕ) → RsdpInfo → Run (ApiError × RsdpInfo)
unfolding detect_loop
detect_rsdp_within window base length info = detect_loop (length + 1) window base length 0 info

-- Nothing in the first window: the search of the second.
unfoldable pub detect_next : List ℕ → RsdpInfo → Run (ApiError × RsdpInfo)
unfolding detect_rsdp_within
detect_next window info = detect_rsdp_within window 0xE0000 0x20000 info >>= λ r. elim r.0 [
  | no_error ↦ ok (no_error, r.1)
  | end_reached ↦ ok (end_reached, r.1)
  | _ ↦ panic
]

-- `lai_bios_detect_rsdp`; `map address size` is what the mapping by the host lets the code read.
unfoldable pub detect_rsdp :
    (has_map has_unmap : Bool) (map : ℕ → ℕ → List ℕ) → RsdpInfo → Run (ApiError × RsdpInfo)
unfolding detect_rsdp_within detect_next load
detect_rsdp has_map has_unmap map info = do
  ensure (has_map && has_unmap)
  bda_data ← load (map 0x40E 2) 0 2
  r ← detect_rsdp_within (map (bda_data * 16) 0x400) (bda_data * 16) 0x400 info
  elim r.0 [
    | no_error ↦ ok (no_error, r.1)
    | end_reached ↦ detect_next (map 0xE0000 0x20000) r.1
    | _ ↦ panic
  ]
