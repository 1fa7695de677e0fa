-- ===== src/Base/Dict.antt =====
-- `std::unordered_map`, `absl::flat_hash_map` and, by its nodes, `std::list`: a key is bound at most
-- once, and the order of the entries means nothing to the callers.
use Prim.Native.Nat.{◌+◌, ◌≤◌}
use mathlib.Core.Path.{◌≡◌, refl, ap}
use mathlib.Core.Logic.{ite, ◌⊎◌, inl, inr}
use mathlib.Core.Bool.{Bool, true, false}
use mathlib.Core.Option.{Option, none, some}
use mathlib.Core.List.{List, [], ◌∷◌}
use native.Mathlib.Omega.{arith}
use rsafe_fs.Base.Lists.{length}
use rsafe_fs.Base.Tests.{Option-cases, is_some}

module _ {ℓ} {K V : Type ℓ} (dec : Discrete K) where
  -- `find`, with `end()` as `none`
  unfoldable pub find : K → List (K × V) → Option V
  find k [] = none
  find k ((q, v) ∷ m) = ite (dec q k) (some v) (find k m)

  unfoldable pub erase : K → List (K × V) → List (K × V)
  erase k [] = []
  erase k ((q, v) ∷ m) = ite (dec q k) (erase k m) ((q, v) ∷ erase k m)

  -- `emplace` and `try_emplace`: a key that is there keeps its value
  unfoldable pub emplace : K → V → List (K × V) → List (K × V)
  emplace k v m = elim (find k m) [ none ↦ (k, v) ∷ m | some _ ↦ m ]

  -- `m[k] = v`
  unfoldable pub assign : K → V → List (K × V) → List (K × V)
  assign k v m = (k, v) ∷ erase k m

  abbrev pub Distinct : List (K × V) → Type ℓ
  Distinct [] = Unit
  Distinct ((k, v) ∷ m) = (find k m ≡ none) × Distinct m

  pub find-erase : (q k : K) (m : List (K × V)) → find q (erase k m) ≡ ite (dec k q) none (find q m)
  unfolding find erase
  find-erase q k [] = ground arith
  find-erase q k ((j, v) ∷ m) = ground (arith, find-erase q k m)

  pub find-emplace :
      (q k : K) (v : V) (m : List (K × V))
      → find k m ≡ none
      → find q (emplace k v m) ≡ ite (dec k q) (some v) (find q m)
  unfolding find emplace
  find-emplace q k v m h = ground arith

  pub find-assign :
      (q k : K) (v : V) (m : List (K × V))
      → find q (assign k v m) ≡ ite (dec k q) (some v) (find q m)
  unfolding find assign
  find-assign q k v m = ground (arith, find-erase q k m)

  pub erase_absent : (k : K) (m : List (K × V)) → find k m ≡ none → erase k m ≡ m
  unfolding find erase
  erase_absent k [] h = refl
  erase_absent k ((j, v) ∷ m) h = ground (arith, erase_absent k m)

  pub erase-Distinct : (k : K) (m : List (K × V)) → Distinct m → Distinct (erase k m)
  unfolding erase
  erase-Distinct k [] d = tt
  erase-Distinct k ((j, v) ∷ m) d = ground (arith, erase-Distinct k m d.1, find-erase j k m)

  pub emplace-Distinct : (k : K) (v : V) (m : List (K × V)) → Distinct m → Distinct (emplace k v m)
  unfolding emplace
  emplace-Distinct k v m d = ground arith

  pub assign-Distinct : (k : K) (v : V) (m : List (K × V)) → Distinct m → Distinct (assign k v m)
  unfolding assign
  assign-Distinct k v m d = ground (arith, erase-Distinct k m d, find-erase k k m)

  pub length-erase :
      (k : K) (m : List (K × V)) (v : V)
      → Distinct m
      → find k m ≡ some v
      → length (erase k m) + 1 ≡ length m
  unfolding find erase
  length-erase k [] v d h = cc
  length-erase k ((j, w) ∷ m) v d h = ground (arith, length-erase k m v d.1, erase_absent k m)

  pub length-erase-le : (k : K) (m : List (K × V)) → length (erase k m) ≤ length m
  unfolding erase
  length-erase-le k [] = omega arith
  length-erase-le k ((j, v) ∷ m) = ground (arith, length-erase-le k m)

  pub length-emplace-le : (k : K) (v : V) (m : List (K × V)) → length (emplace k v m) ≤ length m + 1
  unfolding emplace
  length-emplace-le k v m = ground arith

  -- In either case the key is bound afterwards, and nothing else has changed.
  pub find-emplace-some :
      (q k : K) (v : V) (m : List (K × V))
      → find q (emplace k v m)
        ≡ ite (dec k q) (elim (find k m) [ none ↦ some v | some w ↦ some w ]) (find q m)
  unfolding find emplace
  find-emplace-some q k v m = ground arith

  pub length-assign :
      (k : K) (v : V) (m : List (K × V)) → length (assign k v m) ≡ length (erase k m) + 1
  unfolding assign
  length-assign k v m = omega arith

  pub length-emplace :
      (k : K) (v : V) (m : List (K × V)) → find k m ≡ none → length (emplace k v m) ≡ length m + 1
  unfolding emplace
  length-emplace k v m h = ground arith

  pub emplace_present :
      (k : K) (v : V) (m : List (K × V)) {w : V} → find k m ≡ some w → emplace k v m ≡ m
  unfolding emplace
  emplace_present k v m h = ground arith

  pub find-assign_self : (k : K) (v : V) (m : List (K × V)) → find k (assign k v m) ≡ some v
  find-assign_self k v m = ground (arith, find-assign k k v m)

  pub find-emplace_inv :
      (q k : K) (v w : V) (m : List (K × V))
      → find q (emplace k v m) ≡ some w
      → (find q m ≡ some w) ⊎ ((k ≡ q) × (v ≡ w))
  unfolding find emplace
  find-emplace_inv q k v w m h = elim (Option-cases (find k m)) [
    | inl miss ↦ elim (dec k q) [ yes p ↦ inr (p, ground arith) | no n ↦ inl (ground arith) ]
    | inr (u, hit) ↦ inl (ground arith)
  ]

  pub find-assign_inv :
      (q k : K) (v w : V) (m : List (K × V))
      → find q (assign k v m) ≡ some w
      → (find q m ≡ some w) ⊎ ((k ≡ q) × (v ≡ w))
  find-assign_inv q k v w m h = elim (dec k q) [
    | yes p ↦ inr (p, ground (arith, find-assign q k v m))
    | no n ↦ inl (ground (arith, find-assign q k v m))
  ]

  pub find-erase_inv :
      (q k : K) (w : V) (m : List (K × V)) → find q (erase k m) ≡ some w → find q m ≡ some w
  find-erase_inv q k w m h = ground (arith, find-erase q k m)

  pub is_some-emplace_self :
      (k : K) (v : V) (m : List (K × V)) → is_some (find k (emplace k v m)) ≡ true
  is_some-emplace_self k v m = elim (Option-cases (find k m)) [
    | inl miss ↦ ground (arith, find-emplace k k v m miss)
    | inr (w, hit) ↦ ground (arith, emplace_present k v m hit)
  ]

  pub nil_of_find : (m : List (K × V)) → ((k : K) → find k m ≡ none) → m ≡ []
  unfolding find
  nil_of_find [] h = refl
  nil_of_find ((j, v) ∷ m) h = ground (arith, h j)

-- The entries with key and value exchanged.
abbrev pub swap {ℓ} : {K V : Type ℓ} → List (K × V) → List (V × K)
swap [] = []
swap ((k, v) ∷ m) = (v, k) ∷ swap m

pub swap-swap {ℓ} : {K V : Type ℓ} (m : List (K × V)) → swap (swap m) ≡ m
swap-swap [] = refl
swap-swap (e ∷ m) = ap (◌∷◌ e) (swap-swap m)

module _ {ℓ} {K V : Type ℓ} (dk : Discrete K) (dv : Discrete V) where
  -- Where keys and values are distinct, a binding can be read either way.
  pub find-swap :
      (k : K) (v : V) (m : List (K × V))
      → Distinct dk m
      → find dv v (swap m) ≡ some k
      → find dk k m ≡ some v
  unfolding find
  find-swap k v [] d h = cc
  find-swap k v ((j, w) ∷ m) d h = ground (arith, find-swap k v m d.1)

  pub swap-erase :
      (k : K) (v : V) (m : List (K × V))
      → Distinct dk m
      → Distinct dv (swap m)
      → find dv v (swap m) ≡ some k
      → swap (erase dk k m) ≡ erase dv v (swap m)
  unfolding find erase
  swap-erase k v [] d e h = cc
  swap-erase k v ((j, w) ∷ m) d e h = ground (
    arith,
    swap-erase k v m d.1 e.1,
    find-swap k v m d.1,
    erase_absent dk k m,
    erase_absent dv v (swap m),
  )

abbrev pub firsts {ℓ} : {K V : Type ℓ} → List (K × V) → List K
firsts [] = []
firsts ((k, v) ∷ m) = k ∷ firsts m

-- A list without every occurrence of an element.
unfoldable pub delete {ℓ} : {A : Type ℓ} → Discrete A → A → List A → List A
delete dec a [] = []
delete dec a (x ∷ l) = ite (dec x a) (delete dec a l) (x ∷ delete dec a l)

pub firsts-erase {ℓ} :
    {K V : Type ℓ} (dec : Discrete K) (k : K) (m : List (K × V))
    → firsts (erase dec k m) ≡ delete dec k (firsts m)
unfolding erase delete
firsts-erase dec k [] = refl
firsts-erase dec k ((j, v) ∷ m) = ground (arith, firsts-erase dec k m)

unfoldable pub member {ℓ} : {A : Type ℓ} → Discrete A → A → List A → Bool
member dec q [] = false
member dec q (x ∷ l) = ite (dec x q) true (member dec q l)
