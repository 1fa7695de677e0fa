-- ===== src/Eviction/Lru/Order.antt =====
-- The manager against the list of its keys, most recently used first.
use rsafe_fs.Base.{
  ℕ, ◌≡◌, refl, sym, ap, ◌∙◌, ◌⊎◌, inl, inr, List, [], ◌∷◌, none, some, ℕ_discrete, ◌≤◌, arith,
  Option-cases, List-cases,
}
use rsafe_fs.Base.Dict.{
  find, erase, swap, firsts, Distinct, swap-swap, swap-erase, find-swap, find-erase, find-assign,
  erase_absent, erase-Distinct, nil_of_find,
}
use rsafe_fs.Eviction.Lru.{
  LruManager, empty, pop_back, erase_node, touch, remove, evict_back, evict,
}

-- The keys in the order of their nodes.
abbrev pub order : {K : Type 0} → List (ℕ × K) → List K
order l = firsts (swap l)

-- Addresses and keys are distinct, the next address is free, and the map holds the address of each
-- key's node.
pub record IsValid {K : Type 0} (dec : Discrete K) (s : LruManager K) : Type 0 where
  pub nodes : Distinct ℕ_discrete s.keys
  pub once : Distinct dec (swap s.keys)
  pub fresh : (n : ℕ) → s.free ≤ n → find ℕ_discrete n s.keys ≡ none
  pub agree : (k : K) → find dec k s.map ≡ find dec k (swap s.keys)

pub pop_back-erase :
    {K V : Type 0} (dec : Discrete K) (k : K) (v : V) (m rest : List (K × V))
    → Distinct dec m
    → pop_back m ≡ some ((k, v), rest)
    → (rest ≡ erase dec k m) × (find dec k m ≡ some v)
unfolding pop_back find erase
pop_back-erase dec k v [] rest d h = cc
pop_back-erase dec k v (e ∷ []) rest d h = ground arith
pop_back-erase dec k v (e ∷ f ∷ m) rest d h = elim (Option-cases (pop_back (f ∷ m))) [
  | inl stop ↦ ground arith
  | inr (((j, w), r), more) ↦ ground (arith, pop_back-erase dec k v (f ∷ m) r d.1)
]

pop_back-none : {A : Type 0} (l : List A) → pop_back l ≡ none → l ≡ []
unfolding pop_back
pop_back-none [] h = refl
pop_back-none (x ∷ []) h = cc
pop_back-none (x ∷ y ∷ l) h = elim (Option-cases (pop_back (y ∷ l))) [
  | inl stop ↦ let e : y ∷ l ≡ [] = pop_back-none (y ∷ l) stop in cc
  | inr (p, more) ↦ ground arith
]

swap_nil : {K V : Type 0} (m : List (K × V)) → swap m ≡ [] → m ≡ []
swap_nil [] h = refl
swap_nil (e ∷ m) h = cc

module _ {K : Type 0} (dec : Discrete K) where
  pub empty-IsValid : IsValid dec (empty {K = K})
  unfolding empty find
  empty-IsValid = record { nodes = tt; once = tt; fresh = λ n h. refl; agree = λ k. refl }

  module _ (t : K) {s : LruManager K} (v : IsValid dec s) where
    pub swap-erase_node : swap (erase_node dec t s) ≡ erase dec t (swap s.keys)
    unfolding erase_node
    swap-erase_node = elim (Option-cases (find dec t s.map)) [
      | inl miss ↦
          rw (miss, erase_node) (sym (erase_absent dec t (swap s.keys) (sym (v.agree t) ∙ miss)))
      | inr (it, hit) ↦
          rw (hit, erase_node)
            (swap-erase ℕ_discrete dec it t s.keys v.nodes v.once (sym (v.agree t) ∙ hit))
    ]

    erase_node-Distinct : Distinct ℕ_discrete (erase_node dec t s)
    unfolding erase_node
    erase_node-Distinct = elim (Option-cases (find dec t s.map)) [
      | inl miss ↦ rw (miss, erase_node) v.nodes
      | inr (it, hit) ↦ rw (hit, erase_node) (erase-Distinct ℕ_discrete it s.keys v.nodes)
    ]

    pub find-erase_node : (n : ℕ) → s.free ≤ n → find ℕ_discrete n (erase_node dec t s) ≡ none
    unfolding erase_node
    find-erase_node n h = elim (Option-cases (find dec t s.map)) [
      | inl miss ↦ rw (miss, erase_node) (v.fresh n h)
      | inr (it, hit) ↦
          rw (hit, erase_node) (ground (arith, find-erase ℕ_discrete n it s.keys, v.fresh n h))
    ]

    pub touch-IsValid : IsValid dec (touch dec t s)
    unfolding touch find
    touch-IsValid = record {
      nodes = (find-erase_node s.free (omega arith), erase_node-Distinct);
      once = rw swap-erase_node (
        ground (arith, find-erase dec t t (swap s.keys)),
        erase-Distinct dec t (swap s.keys) v.once,
      );
      fresh = λ n h. ground (arith, find-erase_node n (omega arith));
      agree = λ k. rw swap-erase_node (
          ground
            (arith, find-assign dec k t s.free s.map, find-erase dec k t (swap s.keys), v.agree k));
    }

    pub remove-IsValid : IsValid dec (remove dec t s)
    unfolding remove
    remove-IsValid = record {
      nodes = erase_node-Distinct;
      once = rw swap-erase_node (erase-Distinct dec t (swap s.keys) v.once);
      fresh = find-erase_node;
      agree = λ k.
          rw swap-erase_node
            (ground (arith, find-erase dec k t s.map, find-erase dec k t (swap s.keys), v.agree k));
    }

  module _ {s : LruManager K} (v : IsValid dec s) where
    keys_nil : s.map ≡ [] → s.keys ≡ []
    unfolding find
    keys_nil e =
        swap_nil s.keys (nil_of_find dec (swap s.keys) (λ k. sym (v.agree k) ∙ ap (find dec k) e))

    pub map_nil : s.keys ≡ [] → s.map ≡ []
    unfolding find
    map_nil e = nil_of_find dec s.map (λ k. v.agree k ∙ ap (λ l. find dec k (swap l)) e)

    -- What an eviction is on a valid state: nothing, or the last node leaves both structures.
    pub evict_cases :
        ((evict dec s ≡ (none, s)) × (s.keys ≡ []))
        ⊎ ((it : ℕ) × (t : K) × (rest : List (ℕ × K)) × (pop_back s.keys ≡ some ((it, t), rest))
            × (evict dec s ≡ (some t, record s { keys = rest; map = erase dec t s.map })))
    unfolding evict evict_back
    evict_cases = elim (List-cases s.map) [
      | inl e ↦ inl (ground arith, keys_nil e)
      | inr (m, ms, e) ↦ elim (Option-cases (pop_back s.keys)) [
        | inl stop ↦ let e' : s.map ≡ [] = map_nil (pop_back-none s.keys stop) in cc
        | inr (((it, t), rest), p) ↦ inr (it, t, rest, p, ground arith)
      ]
    ]

    -- The map knows the address of the last node.
    pub find_back :
        (it : ℕ) (t : K) (rest : List (ℕ × K))
        → pop_back s.keys ≡ some ((it, t), rest)
        → find dec t (swap s.keys) ≡ some it
    find_back it t rest p =
        let (_, hit) = pop_back-erase ℕ_discrete it t s.keys rest v.nodes p in
        find-swap dec ℕ_discrete t it (swap s.keys) v.once (rw swap-swap hit)

    pub evict-IsValid : IsValid dec (evict dec s).1
    evict-IsValid = elim evict_cases [
      | inl (e, h) ↦ rw e v
      | inr (it, t, rest, p, e) ↦
          let (r, hit) = pop_back-erase ℕ_discrete it t s.keys rest v.nodes p in
          let found = find_back it t rest p in
          let cut = swap-erase ℕ_discrete dec it t s.keys v.nodes v.once found in
          rw (e, r)
            (record {
              nodes = erase-Distinct ℕ_discrete it s.keys v.nodes;
              once = rw cut (erase-Distinct dec t (swap s.keys) v.once);
              fresh = λ n h. ground (arith, find-erase ℕ_discrete n it s.keys, v.fresh n h);
              agree = λ k. rw cut (
                  ground
                    (arith, find-erase dec k t s.map, find-erase dec k t (swap s.keys), v.agree k));
            })
    ]
