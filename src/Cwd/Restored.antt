-- ===== src/Cwd/Restored.antt =====
-- However the calls went, the host directory is the one that is restored.
use cpmdc.Base.{
  ◌≡◌, ◌⊎◌, inl, inr, refl, sym, ap, subst, ◌∙◌, Bool, true, false, Option, none, some, List, [],
  ◌∷◌, length, ◌==◌, Bool-cases, Option-cases, arith,
}
use cpmdc.Host.Directory.{Text}
use cpmdc.Cwd.{
  Process, usable_dir, is_absolute, chdir, save_host_cwd, change_dir, set_library, prepare_pp_cwd,
  enter_from, enter_output_cwd, forget, restore_host_cwd,
}

-- The calls of an evaluation on the working directory.
pub data Call : Type 0 where
  prepare : Text → Call
  enter : Text → Call
  restore : Call

module _ {Dir : Type 0} (resolve : Dir → Text → Option Dir) (is_dir : Dir → Text → Bool)
    (name_of : Dir → Option Text) where
  unfoldable pub run : Process Dir → List Call → Process Dir
  run p [] = p
  run p (prepare path ∷ calls) = run (prepare_pp_cwd resolve is_dir name_of p path).1 calls
  run p (enter path ∷ calls) = run (enter_output_cwd resolve is_dir name_of p path).1 calls
  run p (restore ∷ calls) = run (restore_host_cwd resolve is_dir name_of p).1 calls

  -- The process stands in the host directory, or has its name.
  IsHome : Dir → Process Dir → Type 0
  IsHome home p =
      ((p.saved ≡ none) × (p.cwd ≡ home))
      ⊎ ((name : Text) × (p.saved ≡ some name) × (name_of home ≡ some name))

  Named : Dir → Process Dir → Type 0
  Named home p = (name : Text) × (p.saved ≡ some name) × (name_of home ≡ some name)

  chdir-saved :
      (p : Process Dir) (path : Text) → (chdir resolve is_dir name_of p path).1.saved ≡ p.saved
  unfolding chdir
  chdir-saved p path = ground arith

  change_dir-saved :
      (p : Process Dir) (dir : Text) → (change_dir resolve is_dir name_of p dir).1.saved ≡ p.saved
  unfolding change_dir
  change_dir-saved p dir = ground (arith, chdir-saved p dir)

  set_library-saved :
      (dir : Text) (x : Bool × Process Dir)
      → (set_library resolve is_dir name_of dir x).1.saved ≡ x.1.saved
  unfolding set_library
  set_library-saved dir (false, p) = refl
  set_library-saved dir (true, p) = ground arith

  enter_from-saved :
      (name : Text) (p : Process Dir) (dir : Text)
      → (enter_from resolve is_dir name_of name p dir).1.saved ≡ p.saved
  unfolding enter_from
  enter_from-saved name p dir = elim (Bool-cases (is_absolute dir)) [
    | inl absolute ↦ rw absolute (change_dir-saved p dir)
    | inr relative ↦ elim (Bool-cases (chdir resolve is_dir name_of p name).0) [
      | inl moved ↦
          rw (relative, enter_from, moved)
            (change_dir-saved (chdir resolve is_dir name_of p name).1 dir ∙ chdir-saved p name)
      | inr stuck ↦ rw (relative, enter_from, stuck) (chdir-saved p name)
    ]
  ]

  save-Named :
      (home : Dir) (p : Process Dir) (x : Text × Process Dir)
      → IsHome home p
      → save_host_cwd resolve is_dir name_of p ≡ some x
      → Named home x.1
  unfolding save_host_cwd IsHome Named
  save-Named home p x (inr (name, has, same)) e =
      let here : x.1 ≡ p = ground arith in
      (name, ap (λ (q : Process Dir). q.saved) here ∙ has, same)
  save-Named home p x (inl (unsaved, at_home)) e = elim (Option-cases (name_of p.cwd)) [
    | inl too_long ↦ absurd (ground arith)
    | inr (name, found) ↦
        let saved : x.1.saved ≡ some name = ground arith in
        (name, saved, ap name_of (sym at_home) ∙ found)
  ]

  Named-IsHome : (home : Dir) (p q : Process Dir) → Named home p → q.saved ≡ p.saved → IsHome home q
  unfolding IsHome Named
  Named-IsHome home p q (name, has, same) e = inr (name, e ∙ has, same)

  prepare-IsHome :
      (home : Dir) (p : Process Dir) (path : Text)
      → IsHome home p
      → IsHome home (prepare_pp_cwd resolve is_dir name_of p path).1
  unfolding prepare_pp_cwd
  prepare-IsHome home p path h = elim (Option-cases (usable_dir path)) [
    | inl bad ↦ rw (bad, prepare_pp_cwd) h
    | inr (dir, good) ↦ elim (Bool-cases (is_dir p.cwd dir)) [
      | inr missing ↦ rw (good, prepare_pp_cwd, missing) h
      | inl there ↦ elim (Option-cases (save_host_cwd resolve is_dir name_of p)) [
        | inl unsaved ↦ rw (good, prepare_pp_cwd, there, unsaved) h
        | inr (x, saved) ↦
            rw (good, prepare_pp_cwd, there, saved)
              (Named-IsHome home x.1
                (set_library resolve is_dir name_of dir (chdir resolve is_dir name_of x.1 dir)).1
                (save-Named home p x h saved)
                (set_library-saved dir (chdir resolve is_dir name_of x.1 dir)
                  ∙ chdir-saved x.1 dir))
      ]
    ]
  ]

  enter-IsHome :
      (home : Dir) (p : Process Dir) (path : Text)
      → IsHome home p
      → IsHome home (enter_output_cwd resolve is_dir name_of p path).1
  unfolding enter_output_cwd
  enter-IsHome home p path h = elim (Option-cases (save_host_cwd resolve is_dir name_of p)) [
    | inl unsaved ↦ rw (unsaved, enter_output_cwd) h
    | inr (x, saved) ↦
        let named = save-Named home p x h saved in
        elim (Bool-cases (length path == 0)) [
          | inl empty ↦
              rw (saved, enter_output_cwd, empty)
                (Named-IsHome home x.1 (chdir resolve is_dir name_of x.1 x.0).1 named
                  (chdir-saved x.1 x.0))
          | inr given ↦ elim (Option-cases (usable_dir path)) [
            | inl bad ↦
                rw (saved, enter_output_cwd, given, bad) (Named-IsHome home x.1 x.1 named refl)
            | inr (dir, good) ↦
                rw (saved, enter_output_cwd, given, good)
                  (Named-IsHome home x.1 (enter_from resolve is_dir name_of x.0 x.1 dir).1 named
                    (enter_from-saved x.0 x.1 dir))
          ]
        ]
  ]

  module _
      (leads_back : (cwd dir to : Dir) (name : Text)
        → name_of dir ≡ some name
        → resolve cwd name ≡ some to
        → to ≡ dir) where
    Restores : Dir → Process Dir → Bool × Process Dir → Type 0
    Restores home p x =
        ((x.0 ≡ true) × (x.1.cwd ≡ home) × (x.1.saved ≡ none)) ⊎ ((x.0 ≡ false) × (x.1 ≡ p))

    restore-Restores :
        (home : Dir) (p : Process Dir)
        → IsHome home p
        → Restores home p (restore_host_cwd resolve is_dir name_of p)
    unfolding restore_host_cwd chdir forget IsHome Restores
    restore-Restores home p (inl (unsaved, at_home)) = rw unsaved (inl (refl, at_home, refl))
    restore-Restores home p (inr (name, has, same)) = elim (Option-cases (resolve p.cwd name)) [
      | inl gone ↦
          let failed : restore_host_cwd resolve is_dir name_of p ≡ (false, p) = ground arith in
          rw failed (inr (refl, refl))
      | inr (dir, found) ↦
          rw (has, restore_host_cwd, chdir, found, forget)
            (inl (refl, leads_back p.cwd home dir name same found, refl))
    ]

    restore-IsHome :
        (home : Dir) (p : Process Dir)
        → IsHome home p
        → IsHome home (restore_host_cwd resolve is_dir name_of p).1
    unfolding IsHome Restores
    restore-IsHome home p h = elim (restore-Restores home p h) [
      | inl (good, at_home, unsaved) ↦ inl (unsaved, at_home)
      | inr (bad, same) ↦ subst (IsHome home) (sym same) h
    ]

    run-IsHome :
        (home : Dir) (p : Process Dir) (calls : List Call)
        → IsHome home p
        → IsHome home (run p calls)
    unfolding run
    run-IsHome home p [] h = h
    run-IsHome home p (prepare path ∷ calls) h =
        run-IsHome home (prepare_pp_cwd resolve is_dir name_of p path).1 calls
          (prepare-IsHome home p path h)
    run-IsHome home p (enter path ∷ calls) h =
        run-IsHome home (enter_output_cwd resolve is_dir name_of p path).1 calls
          (enter-IsHome home p path h)
    run-IsHome home p (restore ∷ calls) h =
        run-IsHome home (restore_host_cwd resolve is_dir name_of p).1 calls
          (restore-IsHome home p h)

    -- Where the name of a directory leads to no other: from a process with no name saved, any calls to prepare, enter and restore, failed ones among
    -- them, and then a restore: it reports success and the process stands where it began, with no name
    -- saved, or it reports failure and nothing has changed.
    pub restore_host_cwd-run :
        (p : Process Dir) (calls : List Call)
        → p.saved ≡ none
        → (((restore_host_cwd resolve is_dir name_of (run p calls)).0 ≡ true)
            × ((restore_host_cwd resolve is_dir name_of (run p calls)).1.cwd ≡ p.cwd)
            × ((restore_host_cwd resolve is_dir name_of (run p calls)).1.saved ≡ none))
          ⊎ (((restore_host_cwd resolve is_dir name_of (run p calls)).0 ≡ false)
              × ((restore_host_cwd resolve is_dir name_of (run p calls)).1 ≡ run p calls))
    unfolding IsHome Restores
    restore_host_cwd-run p calls unsaved =
        restore-Restores p.cwd (run p calls) (run-IsHome p.cwd p calls (inl (unsaved, refl)))
