-- ===== src/Eviction/Rnd/Policy.antt =====
-- `rnd_eviction`, the driver of both caches, meets what the caches rely on, whatever is drawn.
use rsafe_fs.Base.{
  ℕ, zero, suc, ◌-◌, ◌≤◌, ◌<◌, ◌≡◌, refl, sym, ap, ◌∙◌, ◌⊎◌, inl, inr, ite, true, false, List, [],
  ◌∷◌, none, some, arith, length, List-cases,
}
use rsafe_fs.Base.Dict.{member}
use rsafe_fs.Eviction.{EvictionPolicy, without}
use rsafe_fs.Eviction.Rnd
use rsafe_fs.Eviction.Rnd.{
  Random, RndManager, advance, insert, erase, member-insert, member-erase, member-advance,
}

advance_in : {A : Type 0} (l : List A) (i : ℕ) → i < length l → (a : A) × (advance l i ≡ some a)
unfolding advance
advance_in [] i h = absurd (omega arith)
advance_in (x ∷ l) zero h = (x, refl)
advance_in (x ∷ l) (suc i) h = advance_in l i (omega arith)

module _ {K : Type 0} (dec : Discrete K) (R : Random) where
  -- An eviction of an empty set changes nothing. Of another one it makes one draw, from 0 to the
  -- number of its keys less one: the drawn position is within the set, the key there is given and
  -- leaves, and the generator is the one behind the draw.
  pub evict_cases :
      (s : RndManager R.Gen K)
      → ((Rnd.evict dec R s ≡ (none, s)) × (s.keys ≡ []))
        ⊎ (let (i, g) = R.draw (length s.keys - 1) s.rand_gen in
            (i < length s.keys)
            × ((t : K) × (advance s.keys i ≡ some t)
                × (Rnd.evict dec R s
                    ≡ (some t, record { rand_gen = g; keys = erase dec t s.keys }))))
  unfolding Rnd.evict Rnd.evict_at
  evict_cases s = elim (List-cases s.keys) [
    | inl e ↦ inl (ground arith, e)
    | inr (x, xs, e) ↦
        let d = R.draw (length s.keys - 1) s.rand_gen in
        let low : d.0 ≤ length s.keys - 1 = R.draw-le (length s.keys - 1) s.rand_gen in
        let some_in : d.0 < length s.keys = omega (arith, ap (length {A = K}) e) in
        let (t, hit) = advance_in s.keys d.0 some_in in inr (some_in, (t, hit, ground arith))
  ]

  pub contains-evict :
      (q : K) (s : RndManager R.Gen K)
      → member dec q (Rnd.evict dec R s).1.keys
        ≡ without dec (Rnd.evict dec R s).0 q (member dec q s.keys)
  contains-evict q s = elim (evict_cases s) [
    | inl (e, _) ↦ rw e
    | inr (within, (t, hit, e)) ↦ rw e (ground (arith, member-erase dec q t s.keys))
  ]

  pub evict_held :
      (k : K) (s : RndManager R.Gen K) → (Rnd.evict dec R s).0 ≡ some k → member dec k s.keys ≡ true
  evict_held k s h = elim (evict_cases s) [
    | inl (e, _) ↦ let stop : none ≡ some k = sym (ap (λ r. r.0) e) ∙ h in cc
    | inr (within, (t, hit, e)) ↦
        let same : some t ≡ some k = sym (ap (λ r. r.0) e) ∙ h in
        ground (arith, member-advance dec (R.draw (length s.keys - 1) s.rand_gen).0 s.keys t)
  ]

  pub evict_none :
      (q : K) (s : RndManager R.Gen K) → (Rnd.evict dec R s).0 ≡ none → member dec q s.keys ≡ false
  unfolding member
  evict_none q s h = elim (evict_cases s) [
    | inl (_, nil) ↦ rw nil
    | inr (within, (t, hit, e)) ↦ let stop : some t ≡ none = sym (ap (λ r. r.0) e) ∙ h in cc
  ]

  pub contains-empty : (q : K) → member dec q (Rnd.empty dec R).keys ≡ false
  unfolding Rnd.empty member
  contains-empty q = refl

  pub contains-touch :
      (q k : K) (s : RndManager R.Gen K)
      → member dec q (Rnd.touch dec R k s).keys ≡ ite (dec k q) true (member dec q s.keys)
  unfolding Rnd.touch
  contains-touch q k s = member-insert dec q k s.keys

  pub contains-remove :
      (q k : K) (s : RndManager R.Gen K)
      → member dec q (Rnd.remove dec R k s).keys ≡ ite (dec k q) false (member dec q s.keys)
  unfolding Rnd.remove
  contains-remove q k s = member-erase dec q k s.keys

  -- Every law of `EvictionPolicy` holds of the manager.
  unfoldable pub policy : EvictionPolicy dec
  policy = record {
    State = RndManager R.Gen K;
    Valid = λ s. Unit {0};
    contains = λ q s. member dec q s.keys;
    empty = Rnd.empty dec R;
    touch = Rnd.touch dec R;
    remove = Rnd.remove dec R;
    evict = Rnd.evict dec R;
    empty-Valid = tt;
    contains-empty = contains-empty;
    touch-Valid = λ k s v. tt;
    remove-Valid = λ k s v. tt;
    evict-Valid = λ s v. tt;
    contains-touch = λ q k s _. contains-touch q k s;
    contains-remove = λ q k s _. contains-remove q k s;
    contains-evict = λ q s _. contains-evict q s;
    evict_held = λ k s _. evict_held k s;
    evict_none = λ q s _. evict_none q s;
  }
