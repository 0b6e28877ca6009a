-- ===== src/Adopt/Block.antt =====
-- The communicators that are adopted are the aligned blocks of world ranks.
use cpmdc.Base.{
  ℕ, zero, suc, ◌+◌, ◌-◌, ◌*◌, ◌/◌, ◌%◌, ◌≤◌, ◌<◌, ◌≡◌, ◌↔◌, refl, ap, ◌∙◌, Bool, true, false, inl,
  inr, Option, none, some, List, [], ◌∷◌, length, All, ◌==◌, ==_refl, ==_iff, if◌then◌else◌,
  Bool-cases, Option-cases, arith,
}
use cpmdc.Base.Results.{ok, err, Result-cases}
use cpmdc.Adopt.{Member, Reduced, AdoptError, adopt_resolve, adopt_commit, adopt_calculator_comm}

abbrev pub holds : ℕ → ℕ → ℕ
holds k x = if x == k then 1 else 0

-- How many members have a world rank.
abbrev pub members_at : ℕ → List Member → ℕ
members_at k [] = 0
members_at k (m ∷ comm) = holds k m.world_rank + members_at k comm

-- How many members have a world rank from lo on, below lo + n.
members_in : ℕ → ℕ → List Member → ℕ
members_in lo zero comm = 0
members_in lo (suc n) comm = members_at (lo + n) comm + members_in lo n comm

abbrev pub InRange : ℕ → ℕ → List Member → Type 0
InRange lo n comm = All (λ (m : Member). (lo ≤ m.world_rank) × (m.world_rank < lo + n)) comm

-- Each process is a member at most once.
abbrev pub Distinct : List Member → Type 0
Distinct comm = (k : ℕ) → members_at k comm ≤ 1

inside : ℕ → ℕ → ℕ → ℕ
inside lo zero x = 0
inside lo (suc n) x = holds (lo + n) x + inside lo n x

inside-past : (lo n x : ℕ) → lo + n ≤ x → inside lo n x ≡ 0
unfolding inside
inside-past lo zero x h = refl
inside-past lo (suc n) x h = ground (arith, inside-past lo n x (omega arith))

inside-one : (lo n x : ℕ) → lo ≤ x → x < lo + n → inside lo n x ≡ 1
unfolding inside
inside-one lo zero x h l = absurd (omega arith)
inside-one lo (suc n) x h l = elim (Bool-cases (x == lo + n)) [
  | inl here ↦
      rw here (omega (arith, inside-past lo n x (omega (arith, (==_iff x (lo + n)).0 here))))
  | inr other ↦ rw other (omega (arith, inside-one lo n x h (ground arith)))
]

members_in-nil : (lo n : ℕ) → members_in lo n [] ≡ 0
unfolding members_in
members_in-nil lo zero = refl
members_in-nil lo (suc n) = omega (arith, members_in-nil lo n)

members_in-cons :
    (lo n : ℕ) (m : Member) (comm : List Member)
    → members_in lo n (m ∷ comm) ≡ inside lo n m.world_rank + members_in lo n comm
unfolding members_in inside
members_in-cons lo zero m comm = refl
members_in-cons lo (suc n) m comm = omega (arith, members_in-cons lo n m comm)

members_in-length :
    (lo n : ℕ) (comm : List Member) → InRange lo n comm → members_in lo n comm ≡ length comm
members_in-length lo n [] h = members_in-nil lo n
members_in-length lo n (m ∷ comm) ((h, l), rest) = omega (
  arith,
  members_in-cons lo n m comm,
  inside-one lo n m.world_rank h l,
  members_in-length lo n comm rest,
)

members_in-le : (lo n : ℕ) (comm : List Member) → Distinct comm → members_in lo n comm ≤ n
unfolding members_in
members_in-le lo zero comm d = omega arith
members_in-le lo (suc n) comm d = omega (arith, d (lo + n), members_in-le lo n comm d)

-- Distinct members that fill a range: every world rank of it has one.
members_in-full :
    (lo n : ℕ) (comm : List Member)
    → Distinct comm
    → members_in lo n comm ≡ n
    → (k : ℕ) → lo ≤ k
    → k < lo + n
    → members_at k comm ≡ 1
unfolding members_in
members_in-full lo zero comm d e k h l = absurd (omega arith)
members_in-full lo (suc n) comm d e k h l = elim (Bool-cases (k == lo + n)) [
  | inl here ↦
      let same = (==_iff k (lo + n)).0 here in
      rw same (omega (arith, d (lo + n), members_in-le lo n comm d))
  | inr other ↦
      members_in-full lo n comm d (omega (arith, d (lo + n), members_in-le lo n comm d)) k h
        (ground arith)
]

-- What `MPI_Allreduce` with MPI_MAX answers on the members of a communicator.
pub record IsReduction (comm : List Member) (r : Reduced) : Type 0 where
  pub lowest : 1 ≤ members_at r.lo comm
  pub highest : 1 ≤ members_at r.hi comm
  pub between : All (λ (m : Member). (r.lo ≤ m.world_rank) × (m.world_rank ≤ r.hi)) comm
  pub quiet : (r.any_live ≡ false) ↔ All (λ (m : Member). m.live ≡ false) comm

-- The members are the world ranks of block `index`, each once, and none has a live session.
pub record IsBlock (comm : List Member) (index : ℕ) : Type 0 where
  pub every_rank :
      (k : ℕ)
      → index * length comm ≤ k
      → k < index * length comm + length comm
      → members_at k comm ≡ 1
  pub no_other : InRange (index * length comm) (length comm) comm
  pub none_live : All (λ (m : Member). m.live ≡ false) comm

-- The kept communicator, where there is one, is a block.
abbrev pub HoldsBlock : Option (List Member) → Type 0
HoldsBlock none = Unit {0}
HoldsBlock (some comm) = (index : ℕ) × IsBlock comm index

whole_multiple : (a n : ℕ) → 0 < n → a % n ≡ 0 → a / n * n ≡ a
whole_multiple a n h e = grind arith

All-map :
    {P Q : Member → Type 0} (comm : List Member)
    → ((m : Member) → P m → Q m)
    → All P comm
    → All Q comm
All-map [] f h = tt
All-map (m ∷ comm) f (h, rest) = (f m h, All-map comm f rest)

module _ (allreduce : List Member → Option Reduced)
    (reduces : (comm : List Member) (r : Reduced)
      → allreduce comm ≡ some r
      → IsReduction comm r) where
  adopt_resolve-parts :
      (usable : Bool) (comm : List Member) (ranks_per_calc index : ℕ)
      → adopt_resolve allreduce usable comm ranks_per_calc ≡ ok index
      → (r : Reduced) × (allreduce comm ≡ some r)
        × (0 < length comm)
        × (r.any_live ≡ false)
        × (r.hi - r.lo + 1 ≡ length comm)
        × (r.lo % length comm ≡ 0)
        × (index ≡ r.lo / length comm)
  unfolding adopt_resolve
  adopt_resolve-parts usable comm ranks_per_calc index e = elim (Option-cases (allreduce comm)) [
    | inl failed ↦ absurd (ground arith)
    | inr (r, answer) ↦
        (r, answer, ground arith, ground arith, ground arith, ground arith, ground arith)
  ]

  -- For processes that are members at most once, where MPI reduces as it says: a communicator that is accepted is one aligned
  -- block of world ranks, the block of the index that is returned, and no member has a live session.
  pub adopt_resolve-IsBlock :
      (usable : Bool) (comm : List Member) (ranks_per_calc index : ℕ)
      → Distinct comm
      → adopt_resolve allreduce usable comm ranks_per_calc ≡ ok index
      → IsBlock comm index
  adopt_resolve-IsBlock usable comm ranks_per_calc index distinct e =
      let (r, answer, some_member, none_live, width, aligned, at) =
        adopt_resolve-parts usable comm ranks_per_calc index e in
      let red = reduces comm r answer in
      let start : index * length comm ≡ r.lo =
        ap (λ i. i * length comm) at ∙ whole_multiple r.lo (length comm) some_member aligned in
      let within : InRange (index * length comm) (length comm) comm =
        All-map comm (λ m h. (omega (arith, h.0), omega (arith, h.1))) red.between in
      record {
        every_rank = λ k h l.
            members_in-full (index * length comm) (length comm) comm distinct
              (members_in-length (index * length comm) (length comm) comm within) k h l;
        no_other = within;
        none_live = red.quiet.0 none_live;
      }

  members_at-between :
      (a b k : ℕ) (comm : List Member)
      → All (λ (m : Member). (a ≤ m.world_rank) × (m.world_rank ≤ b)) comm
      → 1 ≤ members_at k comm
      → (a ≤ k) × (k ≤ b)
  members_at-between a b k [] h one = absurd (omega arith)
  members_at-between a b k (m ∷ comm) ((low, high), rest) one =
      elim (Bool-cases (m.world_rank == k)) [
        | inl here ↦ let same = (==_iff m.world_rank k).0 here in (omega arith, omega arith)
        | inr other ↦ members_at-between a b k comm rest (ground arith)
      ]

  -- A block with a member is accepted with its index, where MPI answers as it says and the number of
  -- ranks for a calculator is the number of members.
  pub adopt_resolve-accepts :
      (comm : List Member) (index : ℕ) (r : Reduced)
      → IsBlock comm index
      → 0 < length comm
      → allreduce comm ≡ some r
      → adopt_resolve allreduce true comm (length comm) ≡ ok index
  unfolding adopt_resolve
  adopt_resolve-accepts comm index r block some_member answer =
      let red = reduces comm r answer in
      let n = length comm in
      let within : All
          (λ (m : Member). (index * n ≤ m.world_rank) × (m.world_rank ≤ index * n + n - 1)) comm =
        All-map comm (λ m h. (h.0, omega (arith, h.1))) block.no_other in
      let (lo_from, lo_to) =
        members_at-between (index * n) (index * n + n - 1) r.lo comm within red.lowest in
      let (hi_from, hi_to) =
        members_at-between (index * n) (index * n + n - 1) r.hi comm within red.highest in
      let first = block.every_rank (index * n) (omega arith) (omega arith) in
      let last = block.every_rank (index * n + n - 1) (omega arith) (omega arith) in
      let (below, _) = members_at-between r.lo r.hi (index * n) comm red.between (omega arith) in
      let (_, above) =
        members_at-between r.lo r.hi (index * n + n - 1) comm red.between (omega arith) in
      let start : r.lo ≡ index * n = omega arith in
      let end : r.hi ≡ index * n + n - 1 = omega arith in
      let quiet : r.any_live ≡ false = red.quiet.1 block.none_live in
      let wide : (r.hi - r.lo + 1 == n) ≡ true = (==_iff (r.hi - r.lo + 1) n).1 (omega arith) in
      let aligned : (r.lo % n == 0) ≡ true =
        (==_iff (r.lo % n) 0).1 (ap (λ a. a % n) start ∙ grind arith) in
      let at : r.lo / n ≡ index = ap (λ a. a / n) start ∙ grind arith in
      let non_empty : (n == 0) ≡ false = ground arith in
      rw (non_empty, ==_refl n, answer, quiet, wide, aligned, at) (ground arith)

  adopt_commit-HoldsBlock :
      (stores : Bool) (index : ℕ) (adopted : Option (List Member)) (comm : List Member)
      → HoldsBlock adopted
      → IsBlock comm index
      → HoldsBlock (adopt_commit stores index comm adopted).1
        × ((e : AdoptError)
            → (adopt_commit stores index comm adopted).0 ≡ err e
            → (adopt_commit stores index comm adopted).1 ≡ adopted)
  unfolding adopt_commit
  adopt_commit-HoldsBlock true index adopted comm h b = ((index, b), λ e f. absurd cc)
  adopt_commit-HoldsBlock false index adopted comm h b = (h, λ e f. refl)

  -- The communicator that is kept is none yet, or one aligned block of ranks: every call keeps it so,
  -- and a call that fails keeps what there was, for processes that are members at most once and an MPI
  -- that reduces as it says.
  pub adopt_calculator_comm-HoldsBlock :
      (usable stores : Bool) (adopted : Option (List Member)) (comm : List Member)
      (ranks_per_calc : ℕ)
      → Distinct comm
      → HoldsBlock adopted
      → HoldsBlock (adopt_calculator_comm allreduce usable stores adopted comm ranks_per_calc).1
        × ((e : AdoptError)
            → (adopt_calculator_comm allreduce usable stores adopted comm ranks_per_calc).0 ≡ err e
            → (adopt_calculator_comm allreduce usable stores adopted comm ranks_per_calc).1
              ≡ adopted)
  unfolding adopt_calculator_comm
  adopt_calculator_comm-HoldsBlock usable stores adopted comm ranks_per_calc distinct holds_block =
      elim (Result-cases (adopt_resolve allreduce usable comm ranks_per_calc)) [
        | inr (e, refused) ↦ rw (refused, adopt_calculator_comm) (holds_block, λ f g. refl)
        | inl (index, found) ↦
            rw (found, adopt_calculator_comm)
              (adopt_commit-HoldsBlock stores index adopted comm holds_block
                (adopt_resolve-IsBlock usable comm ranks_per_calc index distinct found))
      ]
