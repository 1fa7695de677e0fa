-- ===== src/Eviction/Rnd.antt =====
-- `rnd_cache_manager` of include/rsafefs/common/cache/rnd_manager.hpp, and the drivers that forward
-- to it: lib/layers/{data_cache,metadata_cache}/drivers/rnd.cpp.
pub mod Policy
use rsafe_fs.Base.{
  ℕ, zero, suc, ◌-◌, ◌≤◌, ◌<◌, ◌≡◌, refl, sym, ap, ◌∙◌, ite, Bool, true, false, List, [], ◌∷◌,
  Option, none, some, if_pos, if_neg, if◌then◌else◌, is_some, arith, length, Option-cases,
  List-cases,
}
use rsafe_fs.Base.Dict.{member}
use rsafe_fs.Eviction.{EvictionPolicy, without}

-- `std::uniform_int_distribution<int> dist(0, hi)` on the generator `rand_gen_`: some number from 0
-- to `hi`, and the generator's next state.
pub record Random : Type 1 where
  pub Gen : Type 0
  pub seed : Gen
  pub draw : ℕ → Gen → ℕ × Gen
  pub draw-le : (hi : ℕ) (g : Gen) → (draw hi g).0 ≤ hi

-- `keys_` is the hash set in the order in which its iterator runs.
pub record RndManager (Gen K : Type 0) : Type 0 where
  pub rand_gen : Gen
  pub keys : List K

-- `std::advance(keys.begin(), i)`, dereferenced; past the end it is undefined, and `none` here.
unfoldable pub advance : {A : Type 0} → List A → ℕ → Option A
advance [] i = none
advance (x ∷ xs) zero = some x
advance (x ∷ xs) (suc i) = advance xs i

module _ {K : Type 0} (dec : Discrete K) where
  unfoldable pub erase : K → List K → List K
  erase t [] = []
  erase t (k ∷ l) = ite (dec k t) (erase t l) (k ∷ erase t l)

  unfoldable pub insert : K → List K → List K
  insert t l = if member dec t l then l else t ∷ l

  pub member-insert :
      (q t : K) (l : List K) → member dec q (insert t l) ≡ ite (dec t q) true (member dec q l)
  unfolding insert member
  member-insert q t l = elim (dec t q) [
    | yes p ↦ rw (if_pos _ p) (ground (arith, ap (λ k. member dec k l) p))
    | no p ↦ rw (if_neg _ p) (ground arith)
  ]

  pub member-erase :
      (q t : K) (l : List K) → member dec q (erase t l) ≡ ite (dec t q) false (member dec q l)
  unfolding erase member
  member-erase q t [] = ground arith
  member-erase q t (k ∷ l) = ground (arith, member-erase q t l)

  pub member-advance : (i : ℕ) (l : List K) (t : K) → advance l i ≡ some t → member dec t l ≡ true
  unfolding member advance
  member-advance i [] t h = cc
  member-advance zero (x ∷ l) t h = ground arith
  member-advance (suc i) (x ∷ l) t h = ground (arith, member-advance i l t)

  module _ (R : Random) where
    unfoldable pub empty : RndManager R.Gen K
    empty = record { rand_gen = R.seed; keys = [] }

    unfoldable pub touch : K → RndManager R.Gen K → RndManager R.Gen K
    touch t s = record s { keys = insert t s.keys }

    unfoldable pub remove : K → RndManager R.Gen K → RndManager R.Gen K
    remove t s = record s { keys = erase t s.keys }

    -- the element at the drawn position leaves the set
    unfoldable pub evict_at : ℕ × R.Gen → RndManager R.Gen K → Option K × RndManager R.Gen K
    evict_at (i, g) s = elim (advance s.keys i) [
      | none ↦ (none, record s { rand_gen = g })
      | some t ↦ (some t, record { rand_gen = g; keys = erase t s.keys })
    ]

    unfoldable pub evict : RndManager R.Gen K → Option K × RndManager R.Gen K
    unfolding evict_at
    evict s = elim s.keys [
      | [] ↦ (none, s)
      | _ ∷ _ ↦ evict_at (R.draw (length s.keys - 1) s.rand_gen) s
    ]
