-- ===== src/Host/Tests.antt =====
-- src/cpmdc_embed_host.c: the functions on a water molecule and on two directories.
use cpmdc.Base.{ℕ, ◌≡◌, refl, Bool, true, none, some, List, [], ◌∷◌, get_elem?, arith}
use cpmdc.Base.Results.{ok}
use cpmdc.Host.Order.{pick, pick_all, sum_counts, species_order_map, scatter}
use cpmdc.Host.Order.Permutation.{OrderMap, species_order_map-OrderMap}
use cpmdc.Host.Order.Complete.{species_order_map_complete}
use cpmdc.Host.Order.Scatter.{scatter-species_order_map}
use cpmdc.Host.Directory.{
  Text, Found, pseudopotential_directory, pseudopotential_directory-Found, bounded_len, trim_dir,
  trim_separators, copy_trimmed_dir,
}

abbrev granted_always : ℕ → Bool
granted_always n = true

-- H, O, H, and the species O and H.
abbrev water : List ℕ
water = 1 ∷ 8 ∷ 1 ∷ []

abbrev water_species : List (ℕ × ℕ)
water_species = (8, 1) ∷ (1, 2) ∷ []

abbrev water_slots : List ℕ
water_slots = 1 ∷ 0 ∷ 2 ∷ []

abbrev rows : List ℕ
rows = 80 ∷ 10 ∷ 11 ∷ []

abbrev zeros : List ℕ
zeros = 0 ∷ 0 ∷ 0 ∷ []

water_mapped : species_order_map granted_always water water_species ≡ some water_slots
unfolding species_order_map sum_counts pick_all pick
water_mapped = refl

species_order_map-OrderMap_example : OrderMap water water_species water_slots
species_order_map-OrderMap_example =
    species_order_map-OrderMap granted_always water water_species water_slots water_mapped

species_order_map_complete_example :
    (slots : List ℕ) × (species_order_map granted_always water water_species ≡ some slots)
species_order_map_complete_example =
    species_order_map_complete granted_always water water_species (λ n. refl) (omega arith)
      (omega arith) refl (λ y. omega arith)

scatter-species_order_map_example :
    (s : ℕ) × (get_elem? water_slots s ≡ some 0)
    × (get_elem? (scatter water_slots rows zeros) 0 ≡ get_elem? rows s)
scatter-species_order_map_example =
    scatter-species_order_map granted_always water water_species water_slots rows zeros water_mapped
      (omega arith) refl refl 0 (omega arith)

-- "/pp/", and "/pp" is a directory.
abbrev pp_dir : Text
pp_dir = 47 ∷ 112 ∷ 112 ∷ []

abbrev pp_value : Text
pp_value = 47 ∷ 112 ∷ 112 ∷ 47 ∷ []

abbrev always_dir : Text → Bool
always_dir path = true

pp_found : pseudopotential_directory always_dir (some []) (some pp_value) 1024 ≡ ok pp_dir
unfolding pseudopotential_directory copy_trimmed_dir bounded_len trim_dir trim_separators
pp_found = refl

-- A smaller buffer cuts the path, and the call succeeds.
pp_cut :
    pseudopotential_directory always_dir none (some (47 ∷ 1 ∷ 2 ∷ 3 ∷ 4 ∷ 5 ∷ 6 ∷ 7 ∷ 8 ∷ [])) 8
    ≡ ok (47 ∷ 1 ∷ 2 ∷ 3 ∷ 4 ∷ 5 ∷ 6 ∷ [])
unfolding pseudopotential_directory copy_trimmed_dir bounded_len trim_dir trim_separators
pp_cut = refl

pseudopotential_directory-Found_example : Found always_dir (some []) (some pp_value) pp_dir
pseudopotential_directory-Found_example =
    pseudopotential_directory-Found always_dir (some []) (some pp_value) 1024 pp_dir (omega arith)
      pp_found
