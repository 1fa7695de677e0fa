-- ===== src/Tests/Eviction.antt =====
-- The two eviction managers on small integers.
use rsafe_fs.Base.{◌<◌, ℕ, suc, ◌≡◌, ◌⊎◌, List, [], ◌∷◌, none, some, arith, min, ℕ_discrete}
use rsafe_fs.Eviction.Lru
use rsafe_fs.Eviction.Lru.Order.{empty-IsValid, order}
use rsafe_fs.Eviction.Lru.Recency.{Call, run, run_recency, run_refines}
use rsafe_fs.Eviction.Rnd
use rsafe_fs.Eviction.Rnd.{Random, RndManager, advance, erase}
use rsafe_fs.Eviction.Rnd.Policy.{evict_cases}

abbrev calls : List (Call ℕ)
calls =
    Call.touches 1
    ∷ Call.touches 2
    ∷ Call.touches 3
    ∷ Call.touches 1
    ∷ Call.removes 3
    ∷ Call.evicts
    ∷ Call.evicts
    ∷ Call.evicts
    ∷ []

run_refines_example :
    run ℕ_discrete Lru.empty calls ≡ run_recency ℕ_discrete (order (Lru.empty {K = ℕ}).keys) calls
run_refines_example = run_refines ℕ_discrete calls Lru.empty (empty-IsValid ℕ_discrete)

abbrev counter : Random
counter = record {
  Gen = ℕ;
  seed = 0;
  draw = λ hi g. (min g hi, suc g);
  draw-le = λ hi g. omega arith;
}

abbrev three : RndManager ℕ ℕ
three = record { rand_gen = 1; keys = 5 ∷ 6 ∷ 7 ∷ [] }

evict_cases_example :
    ((Rnd.evict ℕ_discrete counter three ≡ (none, three)) × (three.keys ≡ []))
    ⊎ (let (i, g) = counter.draw 2 1 in
        (i < 3)
        × ((t : ℕ) × (advance three.keys i ≡ some t)
            × (Rnd.evict ℕ_discrete counter three
                ≡ (some t, record { rand_gen = g; keys = erase ℕ_discrete t three.keys }))))
evict_cases_example = evict_cases ℕ_discrete counter three
