-- ===== src/Cwd.antt =====
-- src/cpmdc_memfd.c: the working directory of the host, which an evaluation leaves and comes back to.
-- The file system is a parameter: `resolve cwd path` is the directory that `chdir` of the path goes
-- to from cwd, where there is one, and `is_dir cwd path` is what `stat` says. The name that `getcwd`
-- writes is a parameter too, `name_of`, with none where it does not fit in 1024 bytes.
pub mod Restored
mod Tests
use cpmdc.Base.{
  ℕ, suc, ◌+◌, Bool, true, false, not, ◌||◌, Option, none, some, List, [], ◌∷◌, ◌++◌, length, ltb,
  leb, ◌==◌, if◌then◌else◌,
}
use cpmdc.Host.Directory.{Text, bounded_len, trim_dir}

-- The process: where it stands, `g_host_cwd` where `g_host_cwd_saved`, and the library path of its
-- environment, `CPMD_PP_LIBRARY_PATH` and `PP_LIBRARY_PATH`, which are set together.
pub record Process (Dir : Type 0) : Type 0 where
  pub cwd : Dir
  pub saved : Option Text
  pub library : Option Text

-- `strnlen(dir, 1023)`, refused where it is 0 or 1023, and the '/' and ' ' cut at the end.
unfoldable pub usable_dir : Text → Option Text
usable_dir path =
    if length path == 0 || leb 1023 (bounded_len path 1023) then none else some (trim_dir path)

abbrev pub is_absolute : Text → Bool
is_absolute [] = false
is_absolute (c ∷ path) = c == 47

module _ {Dir : Type 0} (resolve : Dir → Text → Option Dir) (is_dir : Dir → Text → Bool)
    (name_of : Dir → Option Text) where
  -- The result of a call, 0 or -1, and the process after it.
  unfoldable pub chdir : Process Dir → Text → Bool × Process Dir
  chdir p path = elim (resolve p.cwd path) [
    | none ↦ (false, p)
    | some dir ↦ (true, record p { cwd = dir })
  ]

  unfoldable pub save_host_cwd : Process Dir → Option (Text × Process Dir)
  save_host_cwd p = elim p.saved [
    | some name ↦ some (name, p)
    | none ↦ elim (name_of p.cwd) [
      | none ↦ none
      | some name ↦ some (name, record p { saved = some name })
    ]
  ]

  unfoldable pub change_dir : Process Dir → Text → Bool × Process Dir
  change_dir p dir = if is_dir p.cwd dir then chdir p dir else (false, p)

  -- The library path ends in '/'.
  unfoldable pub set_library : Text → Bool × Process Dir → Bool × Process Dir
  set_library dir (false, p) = (false, p)
  set_library dir (true, p) = (
    true,
    if ltb (length dir + 2) 1100 then record p { library = some (dir ++ (47 ∷ [])) } else p,
  )

  unfoldable pub prepare_pp_cwd : Process Dir → Text → Bool × Process Dir
  prepare_pp_cwd p path = elim (usable_dir path) [
    | none ↦ (false, p)
    | some dir ↦ if not (is_dir p.cwd dir) then (false, p) else elim (save_host_cwd p) [
      | none ↦ (false, p)
      | some (name, q) ↦ set_library dir (chdir q dir)
    ]
  ]

  -- A relative directory is looked up from the host's.
  unfoldable pub enter_from : Text → Process Dir → Text → Bool × Process Dir
  enter_from name p dir =
      if is_absolute dir
      then change_dir p dir
      else let (moved, q) = chdir p name in if moved then change_dir q dir else (false, q)

  unfoldable pub enter_output_cwd : Process Dir → Text → Bool × Process Dir
  enter_output_cwd p path = elim (save_host_cwd p) [
    | none ↦ (false, p)
    | some (name, q) ↦
        if length path == 0
        then chdir q name
        else elim (usable_dir path) [ none ↦ (false, q) | some dir ↦ enter_from name q dir ]
  ]

  unfoldable pub forget : Bool × Process Dir → Bool × Process Dir
  forget (false, p) = (false, p)
  forget (true, p) = (true, record p { saved = none })

  unfoldable pub restore_host_cwd : Process Dir → Bool × Process Dir
  restore_host_cwd p = elim p.saved [ none ↦ (true, p) | some name ↦ forget (chdir p name) ]
