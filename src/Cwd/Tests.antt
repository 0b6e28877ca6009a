-- ===== src/Cwd/Tests.antt =====
-- src/cpmdc_memfd.c: on a file system whose directories are the absolute paths.
use cpmdc.Base.{
  ◌≡◌, ◌⊎◌, refl, Bool, true, false, Option, none, some, List, [], ◌∷◌, if◌then◌else◌, arith,
}
use cpmdc.Host.Directory.{Text}
use cpmdc.Cwd.{Process, is_absolute, restore_host_cwd}
use cpmdc.Cwd.Restored.{Call, prepare, enter, run, restore_host_cwd-run}

abbrev go_to : Text → Text → Option Text
go_to cwd path = if is_absolute path then some path else none

abbrev is_there : Text → Text → Bool
is_there cwd path = is_absolute path

abbrev name_of_path : Text → Option Text
name_of_path dir = if is_absolute dir then some dir else none

go_to-leads_back :
    (cwd dir to : Text) (name : Text)
    → name_of_path dir ≡ some name
    → go_to cwd name ≡ some to
    → to ≡ dir
go_to-leads_back cwd dir to name e f = ground arith

abbrev host : Process Text
host = record { cwd = 47 ∷ 104 ∷ []; saved = none; library = none }

abbrev visit : List Call
visit = prepare (47 ∷ 112 ∷ 47 ∷ []) ∷ enter [] ∷ prepare (112 ∷ []) ∷ []

restore_host_cwd-run_example :
    (((restore_host_cwd go_to is_there name_of_path (run go_to is_there name_of_path host visit)).0
        ≡ true)
      × ((restore_host_cwd go_to is_there name_of_path
            (run go_to is_there name_of_path host visit)).1.cwd
          ≡ (47 ∷ 104 ∷ []))
      × ((restore_host_cwd go_to is_there name_of_path
            (run go_to is_there name_of_path host visit)).1.saved
          ≡ none))
    ⊎ (((restore_host_cwd go_to is_there name_of_path
            (run go_to is_there name_of_path host visit)).0
          ≡ false)
        × ((restore_host_cwd go_to is_there name_of_path
              (run go_to is_there name_of_path host visit)).1
            ≡ run go_to is_there name_of_path host visit))
restore_host_cwd-run_example =
    restore_host_cwd-run go_to is_there name_of_path go_to-leads_back host visit refl
