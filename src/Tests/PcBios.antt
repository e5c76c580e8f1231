-- ===== src/Tests/PcBios.antt =====
-- Tests of helpers/pc-bios.c.
use lai.Base.{ℕ, ◌≡◌, refl, List, [], ◌∷◌, ◌++◌, replicate, ok, ApiError, no_error, arith}
use lai.PcBios.{RsdpInfo, signature, detect_rsdp_within}
use lai.PcBios.Scan.{Outcome, detect_rsdp_within-Outcome}

-- A window with a root pointer of the first version at its second place.
abbrev rsdp_window : List ℕ
rsdp_window =
    replicate 16 0
    ++ signature
    ++ (155 ∷ [])
    ++ replicate 6 0
    ++ (0 ∷ 0x34 ∷ 0x12 ∷ 0 ∷ 0 ∷ [])
    ++ replicate 40 0

abbrev no_info : RsdpInfo
no_info = record { acpi_version = 0; rsdp_address = 0; rsdt_address = 0; xsdt_address = 0 }

abbrev second_info : RsdpInfo
second_info = record {
  acpi_version = 1;
  rsdp_address = 0xE0010;
  rsdt_address = 0x1234;
  xsdt_address = 0;
}

detect_second : detect_rsdp_within rsdp_window 0xE0000 32 no_info ≡ ok (no_error, second_info)
unfolding detect_rsdp_within
detect_second = refl

detect_example :
    (out : ApiError × RsdpInfo) × (detect_rsdp_within rsdp_window 0xE0000 32 no_info ≡ ok out)
    × Outcome rsdp_window 0xE0000 32 out
detect_example = detect_rsdp_within-Outcome rsdp_window 0xE0000 32 (omega arith) no_info
