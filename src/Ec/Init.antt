-- ===== src/Ec/Init.antt =====
-- drivers/ec.c: `lai_early_init_ec` and `lai_init_ec`, which find the ports.
use lai.Base.{
  ℕ, Bool, true, false, ◌==◌, if◌then◌else◌, Option, none, some, List, u16, Run, ok, panic, ◌>>=◌,
  ApiError, no_error,
}
use lai.Resource.{
  View, initialize_resource_view, resource_iterate, resource_get_type, ResourceType, io,
}
use lai.Ec.{Driver}

-- `acpi_gas_t`, and the two of them in `acpi_ecdt_t`.
pub record Gas : Type 0 where
  pub address_space : ℕ
  pub base : ℕ

pub record Ecdt : Type 0 where
  pub ec_control : Gas
  pub ec_data : Gas

abbrev pub gas_io : ℕ
gas_io = 1

-- `lai_early_init_ec`; `has_scan` says whether the host has `laihost_scan`, and `ecdt` is what that
-- returns.
unfoldable pub early_init_ec : (has_scan : Bool) (ecdt : Option Ecdt) → Driver → Run Driver
early_init_ec false ecdt driver = panic
early_init_ec true none driver = ok driver
early_init_ec true (some ecdt) driver =
    if ecdt.ec_control.address_space == gas_io
    then (let with_cmd = record driver { cmd_port = u16 ecdt.ec_control.base } in
        if ecdt.ec_data.address_space == gas_io
        then ok (record with_cmd { data_port = u16 ecdt.ec_data.base })
        else ok with_cmd)
    else ok driver

abbrev pub is_io : ResourceType → Bool
is_io io = true
is_io other = false

abbrev pub no_failure : ApiError → Bool
no_failure no_error = true
no_failure other = false

-- One of the two ports: the next descriptor, which must be one of ports. The result says whether
-- `lai_init_ec` goes on.
unfoldable pub next_port : List ℕ → View → Run (Option ℕ × View)
unfolding resource_iterate resource_get_type
next_port crs view = resource_iterate crs view >>= λ r.
    if no_failure r.0
    then (resource_get_type crs r.1 >>= λ type.
        ok (if is_io type then some r.1.base else none, r.1))
    else ok (none, r.1)

-- `lai_init_ec`, from the outcomes of the calls that it makes first: `lai_check_device_pnp_id`, and
-- the buffer of _CRS if it is found and evaluated.
unfoldable pub init_ec : (pnp_result : ℕ) (crs : Option (List ℕ)) → Driver → Run Driver
unfolding next_port
init_ec pnp_result none driver = ok driver
init_ec pnp_result (some crs) driver =
    if pnp_result == 0
    then (next_port crs initialize_resource_view >>= λ first. elim first.0 [
      | none ↦ ok driver
      | some base ↦
          let with_data = record driver { data_port = u16 base } in
          next_port crs first.1 >>= λ second. elim second.0 [
            | none ↦ ok with_data
            | some base' ↦ ok (record with_data { cmd_port = u16 base' })
          ]
    ])
    else ok driver
