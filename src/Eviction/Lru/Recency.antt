-- ===== src/Eviction/Lru/Recency.antt =====
-- The list of keys, most recently used first, that `lru_cache_manager` implements with its nodes and
-- its map; and the refinement.
use rsafe_fs.Base.{
  ℕ, ◌≡◌, refl, ap, ◌∙◌, inl, inr, List, [], ◌∷◌, Option, none, some, arith, Option-cases,
}
use rsafe_fs.Base.Dict.{swap, firsts, delete, firsts-erase}
use rsafe_fs.Eviction.Lru
use rsafe_fs.Eviction.Lru.{LruManager, pop_back}
use rsafe_fs.Eviction.Lru.Order.{
  IsValid, order, swap-erase_node, touch-IsValid, remove-IsValid, evict-IsValid, evict_cases,
}

pub data Call (K : Type 0) : Type 0 where
  touches : K → Call K
  removes : K → Call K
  evicts : Call K

-- What a client sees: the result of each eviction.
unfoldable pub run : {K : Type 0} → Discrete K → LruManager K → List (Call K) → List (Option K)
run dec s [] = []
run dec s (touches t ∷ cs) = run dec (Lru.touch dec t s) cs
run dec s (removes t ∷ cs) = run dec (Lru.remove dec t s) cs
run dec s (evicts ∷ cs) = (Lru.evict dec s).0 ∷ run dec (Lru.evict dec s).1 cs

-- The specification: a touched key moves to the front, and the last key is evicted.
pub evict : {K : Type 0} → List K → Option K × List K
evict l = elim (pop_back l) [ none ↦ (none, l) | some (t, rest) ↦ (some t, rest) ]

unfoldable pub run_recency : {K : Type 0} → Discrete K → List K → List (Call K) → List (Option K)
run_recency dec l [] = []
run_recency dec l (touches t ∷ cs) = run_recency dec (t ∷ delete dec t l) cs
run_recency dec l (removes t ∷ cs) = run_recency dec (delete dec t l) cs
run_recency dec l (evicts ∷ cs) = (evict l).0 ∷ run_recency dec (evict l).1 cs

pop_back-order :
    {K : Type 0} (it : ℕ) (t : K) (l rest : List (ℕ × K))
    → pop_back l ≡ some ((it, t), rest)
    → pop_back (order l) ≡ some (t, order rest)
unfolding pop_back
pop_back-order it t [] rest h = cc
pop_back-order it t (x ∷ []) rest h = ground arith
pop_back-order it t (x ∷ y ∷ l) rest h = elim (Option-cases (pop_back (y ∷ l))) [
  | inl stop ↦ ground arith
  | inr (((j, u), r), more) ↦ ground (arith, pop_back-order j u (y ∷ l) r)
]

module _ {K : Type 0} (dec : Discrete K) {s : LruManager K} (v : IsValid dec s) where
  order-touch : (t : K) → order (Lru.touch dec t s).keys ≡ t ∷ delete dec t (order s.keys)
  unfolding Lru.touch
  order-touch t =
      ap (λ l. t ∷ firsts l) (swap-erase_node dec t v)
      ∙ ap (◌∷◌ t) (firsts-erase dec t (swap s.keys))

  order-remove : (t : K) → order (Lru.remove dec t s).keys ≡ delete dec t (order s.keys)
  unfolding Lru.remove
  order-remove t = ap firsts (swap-erase_node dec t v) ∙ firsts-erase dec t (swap s.keys)

  evict_refines :
      ((Lru.evict dec s).0 ≡ (evict (order s.keys)).0)
      × (order (Lru.evict dec s).1.keys ≡ (evict (order s.keys)).1)
  unfolding evict pop_back
  evict_refines = elim (evict_cases dec v) [
    | inl (e, h) ↦ rw (e, h) (refl, refl)
    | inr (it, t, rest, p, e) ↦
        let q = pop_back-order it t s.keys rest p in (ground arith, ground arith)
  ]

-- On a valid state the manager evicts the keys that the recency list evicts, whatever the calls.
pub run_refines :
    {K : Type 0} (dec : Discrete K) (cs : List (Call K)) (s : LruManager K)
    → IsValid dec s
    → run dec s cs ≡ run_recency dec (order s.keys) cs
unfolding run run_recency
run_refines dec [] s v = refl
run_refines dec (touches t ∷ cs) s v =
    run_refines dec cs (Lru.touch dec t s) (touch-IsValid dec t v)
    ∙ ap (λ l. run_recency dec l cs) (order-touch dec v t)
run_refines dec (removes t ∷ cs) s v =
    run_refines dec cs (Lru.remove dec t s) (remove-IsValid dec t v)
    ∙ ap (λ l. run_recency dec l cs) (order-remove dec v t)
run_refines dec (evicts ∷ cs) s v =
    let (same, rest) = evict_refines dec v in
    rw same (
      ap (◌∷◌ (evict (order s.keys)).0) (
        run_refines dec cs (Lru.evict dec s).1 (evict-IsValid dec v)
        ∙ ap (λ l. run_recency dec l cs) rest))
