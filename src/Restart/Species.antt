-- ===== src/Restart/Species.antt =====
-- src/cpmdc_restart.c: what `cpmdc_restart_expand_species_symbols` fills in, and when.
use cpmdc.Base.{
  ℕ, ◌+◌, ◌-◌, ◌≤◌, ◌≡◌, ◌↔◌, refl, sym, ◌∙◌, inl, inr, some, List, [], ◌∷◌, ◌++◌, length,
  replicate, All, Option-cases, arith,
}
use cpmdc.Restart.Bytes.{Bytes}
use cpmdc.Restart.File.{File, restart_species}
use cpmdc.Restart.Triples.{expand_loop, expand_species_symbols}

abbrev pub total : List ℕ → ℕ
total [] = 0
total (n ∷ na) = n + total na

-- The symbol of each atom, in species order.
abbrev pub expanded : List ℕ → List Bytes → List Bytes
expanded [] symbols = []
expanded (n ∷ na) [] = []
expanded (n ∷ na) (s ∷ symbols) = replicate n s ++ expanded na symbols

abbrev pub IsSymbol : Bytes → Type 0
IsSymbol s = 1 ≤ length s

-- The counts add up to the atoms, and there is a symbol for each.
pub record Fits (na : List ℕ) (symbols : List Bytes) (room : ℕ) : Type 0 where
  pub one_each : length symbols ≡ length na
  pub named : All IsSymbol symbols
  pub all_atoms : total na ≡ room

expand_loop_complete :
    (na : List ℕ) (symbols : List Bytes) (room : ℕ)
    → Fits na symbols room
    → expand_loop na symbols room ≡ some (expanded na symbols)
unfolding expand_loop
expand_loop_complete [] symbols room f = ground arith
expand_loop_complete (n ∷ na) [] room f = absurd (omega (arith, f.one_each))
expand_loop_complete (n ∷ na) (s ∷ symbols) room f =
    let rest : Fits na symbols (room - n) = record {
      one_each = omega (arith, f.one_each);
      named = f.named.1;
      all_atoms = omega (arith, f.all_atoms);
    } in
    ground (arith, expand_loop_complete na symbols (room - n) rest, f.named.0, f.all_atoms)

expand_loop_sound :
    (na : List ℕ) (symbols : List Bytes) (room : ℕ) (out : List Bytes)
    → length symbols ≡ length na
    → expand_loop na symbols room ≡ some out
    → Fits na symbols room
unfolding expand_loop
expand_loop_sound [] [] room out n e = record {
  one_each = refl;
  named = tt;
  all_atoms = ground arith;
}
expand_loop_sound [] (s ∷ symbols) room out n e = absurd (omega arith)
expand_loop_sound (x ∷ na) [] room out n e = absurd (omega arith)
expand_loop_sound (x ∷ na) (s ∷ symbols) room out n e =
    elim (Option-cases (expand_loop na symbols (room - x))) [
      | inl stuck ↦ absurd (ground arith)
      | inr (rest, found) ↦
          let f = expand_loop_sound na symbols (room - x) rest (omega arith) found in
          record {
            one_each = n;
            named = (ground arith, f.named);
            all_atoms = ground (arith, f.all_atoms);
          }
    ]

-- For a file whose species counts are `na`, at least one, and as many symbols as species: the call
-- succeeds exactly where every symbol is non-empty and the counts add up to `n_atoms`.
-- Then it fills in, species after species, the symbol as often as its count says.
pub expand_species_symbols_lem :
    (file : File) (na : List ℕ) (symbols : List Bytes) (n_atoms : ℕ)
    → file.na ≡ some na
    → 1 ≤ length na
    → length symbols ≡ length na
    → (((out : List Bytes) × (expand_species_symbols file symbols n_atoms ≡ some out))
        ↔ (All IsSymbol symbols × (total na ≡ n_atoms)))
      × ((out : List Bytes)
          → expand_species_symbols file symbols n_atoms ≡ some out
          → out ≡ expanded na symbols)
unfolding expand_species_symbols restart_species
expand_species_symbols_lem file na symbols n_atoms has nonempty one_each = ((only, given), result)
  where
    run : expand_species_symbols file symbols n_atoms ≡ expand_loop na symbols n_atoms
    run = ground arith

    only :
        (out : List Bytes) × (expand_species_symbols file symbols n_atoms ≡ some out)
        → All IsSymbol symbols × (total na ≡ n_atoms)
    only (out, e) =
        let f = expand_loop_sound na symbols n_atoms out one_each (sym run ∙ e) in
        (f.named, f.all_atoms)

    given :
        All IsSymbol symbols × (total na ≡ n_atoms)
        → (out : List Bytes) × (expand_species_symbols file symbols n_atoms ≡ some out)
    given (named, all_atoms) = (
      expanded na symbols,
      run
          ∙ expand_loop_complete na symbols n_atoms
              (record { one_each = one_each; named = named; all_atoms = all_atoms }),
    )

    result :
        (out : List Bytes)
        → expand_species_symbols file symbols n_atoms ≡ some out
        → out ≡ expanded na symbols
    result out e =
        let f = expand_loop_sound na symbols n_atoms out one_each (sym run ∙ e) in
        let same : some out ≡ some (expanded na symbols) =
          sym e ∙ run ∙ expand_loop_complete na symbols n_atoms f in
        cc
