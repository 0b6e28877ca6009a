-- ===== src/Overlay/Tests.antt =====
-- src/cpmdc.c: overlays on small messages, with whole numbers for reals.
use cpmdc.Base.{
  ◌+◌, ℕ, ◌≡◌, refl, Bool, true, false, Option, none, some, List, [], ◌∷◌, ltb, if◌then◌else◌, Text,
  codes, text_eq,
}
use cpmdc.Base.Sample.{whole}
use cpmdc.Base.Results.{ok}
use mathlib.Core.List.Perm
use cpmdc.Force.{null, items}
use cpmdc.Overlay.Token.{
  common_xc_token, upper_names, upper_name, exchange, exchange_sort, text_gt, lookup,
}
use cpmdc.Overlay.Order.{IsSorted, exchange_sort-eq_of_perm}
use cpmdc.Overlay.Names.{common_xc_token-eq_of_perm}
use cpmdc.Overlay.Effective.{
  Params, Overrides, other_section, effective_config, read_sections, copy_text_or,
}
use cpmdc.Overlay.{
  Common, Lowered, common_to_params, merge_common_into_arm, merge_functional, merge_scalars,
  has_overrides, xc_token, basis_ok, van_der_waals, grimme_token, text_equals_ci, temperature,
  mesh_of, scf_of,
}
use cpmdc.Overlay.Resolve.{
  cpmd_arm, Knob, write_growing, config_to_params, install, session_create_from_config,
}
use cpmdc.Overlay.Install.{Holds, session_create_from_config-Holds}
use cpmdc.Session.{Session}
use cpmdc.Session.Params.{session_create, session_set_params}

abbrev libxc_pbe : List Text
libxc_pbe = codes "GGA_X_PBE" ∷ codes "gga_c_pbe" ∷ []

abbrev libxc_pbe_turned : List Text
libxc_pbe_turned = codes "gga_c_pbe" ∷ codes "GGA_X_PBE" ∷ []

token_run : common_xc_token (items libxc_pbe) ≡ some (codes "PBE")
unfolding common_xc_token upper_names upper_name exchange exchange_sort text_gt lookup text_eq
token_run = refl

common_xc_token-eq_of_perm_example :
    common_xc_token (items libxc_pbe) ≡ common_xc_token (items libxc_pbe_turned)
common_xc_token-eq_of_perm_example =
    common_xc_token-eq_of_perm libxc_pbe libxc_pbe_turned
      (Perm.swap (codes "gga_c_pbe") (codes "GGA_X_PBE") [])

exchange_sort-eq_of_perm_example :
    (exchange_sort 2 libxc_pbe ≡ exchange_sort 2 libxc_pbe_turned)
    × IsSorted (exchange_sort 2 libxc_pbe)
exchange_sort-eq_of_perm_example =
    exchange_sort-eq_of_perm libxc_pbe libxc_pbe_turned
      (Perm.swap (codes "gga_c_pbe") (codes "GGA_X_PBE") [])

abbrev plain_arm : Params ℕ
plain_arm = record {
  functional = [];
  cut_off_ry = 0;
  charge = 2;
  multiplicity = 0;
  input_sections = items (other_section ∷ []);
}

abbrev overlay : Common ℕ
overlay = record {
  xc_functionals = items libxc_pbe;
  basis_set = codes "PlaneWave";
  planewave_cutoff_ev = 1300;
  charge = 5;
  spin_multiplicity = 3;
  scf_energy_tolerance_ev = 0;
  scf_max_iterations = 0;
  k_mesh = null;
  smearing = none;
  van_der_waals_method = codes "dft-d3(bj)";
  van_der_waals_s6 = 0;
  relativity_method = [];
}

abbrev lowered : Lowered ℕ
lowered = record {
  functional = codes "PBE";
  cut_off_ry = 92;
  charge = 5;
  multiplicity = 3;
  scf = none;
  grimme = some (codes "D3BJ", none);
  mesh = none;
}

lowering_runs : common_to_params whole overlay ≡ ok lowered
unfolding common_to_params van_der_waals grimme_token text_equals_ci temperature basis_ok xc_token
    mesh_of scf_of common_xc_token upper_names upper_name exchange exchange_sort text_gt lookup
    text_eq
lowering_runs = refl

abbrev plain_overlay : Common ℕ
plain_overlay = record overlay { van_der_waals_method = [] }

abbrev merged : Option (Overrides ℕ)
merged =
    some (record { functional = codes "PBE"; cutoff_ry = 92; charge = none; multiplicity = some 3 })

abbrev write_five : ℕ → Option ℕ
write_five capacity = if ltb capacity 5000 then none else some 11

abbrev empty_message : ℕ → Bool
empty_message m = false

abbrev render : ℕ → Option (Overrides ℕ) → Option ℕ
render m none = some m
render m (some o) = some (m + 100)

abbrev from_arm : Session ℕ (Knob ℕ ℕ ℕ)
from_arm = record {
  params = record { message = 11; overrides = merged; deck = 111 };
  topology = none;
  cached_n_atoms = 0;
  cached = none;
  configured = true;
  orbital_key = none;
}

created :
    session_create_from_config whole
      (λ n. true)
      (λ p. write_five)
      (λ l. write_five)
      empty_message
      true
      render
      true
      (cpmd_arm (some plain_arm))
      (some plain_overlay)
    ≡ some from_arm
unfolding session_create_from_config config_to_params write_growing install session_create
    session_set_params merge_common_into_arm merge_functional merge_scalars has_overrides xc_token
    effective_config read_sections copy_text_or common_xc_token upper_names upper_name exchange
    exchange_sort text_gt lookup text_eq
created = refl

session_create_from_config-Holds_example :
    (message : ℕ) × (overrides : Option (Overrides ℕ)) × (config_to_params whole
        (λ n. true)
        (λ p. write_five)
        (λ l. write_five)
        (cpmd_arm (some plain_arm))
        (some plain_overlay)
      ≡ ok (some (message, overrides)))
    × Holds empty_message true render true message overrides from_arm
session_create_from_config-Holds_example =
    session_create_from_config-Holds whole (λ n. true) (λ p. write_five) (λ l. write_five)
      empty_message true render true (cpmd_arm (some plain_arm)) (some plain_overlay) from_arm
      created
