-- ===== src/Config/Options.antt =====
-- The options of the data cache: the constructor of lib/layers/data_cache/data_cache.cpp. The YAML
-- node is the list of its entries, and `as<T>` of yaml-cpp is a parameter, with none for its exception.
use rsafe_fs.Base.{
  ℕ, ◌*◌, ◌≡◌, refl, ap, ◌∙◌, Bool, true, false, ◌&&◌, ◌||◌, not, if◌then◌else◌, List, [], ◌∷◌,
  Option, none, some, ℤ, pos, is_some, arith, Bool-cases, Option-cases, inl, inr,
}

-- the names that `parser_` knows, and all others
pub data Name : Type 0 where
  size block_size time_out eviction_policy unknown : Name

unfoldable pub same_name : Name → Name → Bool
same_name size size = true
same_name block_size block_size = true
same_name time_out time_out = true
same_name eviction_policy eviction_policy = true
same_name unknown unknown = true
same_name _ _ = false

-- the names of the policies, and all others
pub data Policy : Type 0 where
  lru rnd invalid : Policy

-- `as<size_t>`, `as<int>` and `as<std::string>`
pub record Conversions (V : Type 0) : Type 0 where
  pub as_size : V → Option ℕ
  pub as_int : V → Option ℤ
  pub as_policy : V → Option Policy

-- `data_cache::cache::config`
pub record CacheOptions : Type 0 where
  pub size_ : ℕ
  pub block_size_ : ℕ
  pub time_out_ : ℤ
  pub is_lru : Bool

-- a configuration, the exception of yaml-cpp, or `data_cache_wrong_config_exception`
pub data Outcome : Type 0 where
  done : CacheOptions → Outcome
  bad_conversion wrong_config : Outcome

abbrev pub default_options : CacheOptions
default_options = record {
  size_ = 1024 * 1024 * 1024;
  block_size_ = 16 * 1024;
  time_out_ = pos 30;
  is_lru = false;
}

unfoldable pub flag_of : Policy → Option Bool
flag_of lru = some true
flag_of rnd = some false
flag_of invalid = none

module _ {V : Type 0} (node : Conversions V) where
  -- `data[name]`: the first entry of the name
  unfoldable pub lookup : Name → List (Name × V) → Option V
  lookup k [] = none
  lookup k ((n, v) ∷ kvs) = if same_name n k then some v else lookup k kvs

  -- `data[name].as<T>()`
  unfoldable pub value : {A : Type 0} → (V → Option A) → Name → List (Name × V) → Option A
  value conversion k entries = elim (lookup k entries) [ none ↦ none | some v ↦ conversion v ]

  unfoldable pub set_policy : Policy → CacheOptions → Outcome
  set_policy lru c = done (record c { is_lru = true })
  set_policy rnd c = done (record c { is_lru = false })
  set_policy invalid c = wrong_config

  -- `parser_.at(option)()`, or nothing for an option that is not there
  unfoldable pub parse_option : List (Name × V) → Name → CacheOptions → Outcome
  parse_option entries size c = elim (value node.as_size size entries) [
    | none ↦ bad_conversion
    | some n ↦ done (record c { size_ = n })
  ]
  parse_option entries block_size c = elim (value node.as_size block_size entries) [
    | none ↦ bad_conversion
    | some n ↦ done (record c { block_size_ = n })
  ]
  parse_option entries time_out c = elim (value node.as_int time_out entries) [
    | none ↦ bad_conversion
    | some n ↦ done (record c { time_out_ = n })
  ]
  parse_option entries eviction_policy c = elim (value node.as_policy eviction_policy entries) [
    | none ↦ bad_conversion
    | some p ↦ set_policy p c
  ]
  parse_option entries unknown c = done c

  -- the loop over the entries
  unfoldable pub parse_options : List (Name × V) → List (Name × V) → CacheOptions → Outcome
  parse_options entries [] c = done c
  parse_options entries ((n, v) ∷ kvs) c = elim (parse_option entries n c) [
    | done c' ↦ parse_options entries kvs c'
    | bad_conversion ↦ bad_conversion
    | wrong_config ↦ wrong_config
  ]

  unfoldable pub data_cache_config : List (Name × V) → Outcome
  data_cache_config entries = parse_options entries entries default_options

  unfoldable pub has : Name → List (Name × V) → Bool
  has k kvs = is_some (lookup k kvs)

  -- an option that is there is converted
  unfoldable pub converts : {A : Type 0} → (V → Option A) → Name → List (Name × V) → Bool
  converts conversion k entries = not (has k entries) || is_some (value conversion k entries)

  unfoldable pub to_policy : V → Option Bool
  to_policy v = elim (node.as_policy v) [ none ↦ none | some p ↦ flag_of p ]

  -- the options that are there are numbers, and a policy that there is
  unfoldable pub is_good : List (Name × V) → Bool
  is_good entries =
      (converts node.as_size size entries && converts node.as_size block_size entries)
      && (converts node.as_int time_out entries && converts to_policy eviction_policy entries)

  -- what the first entry of the name says, and otherwise what was there
  unfoldable pub value_or : {A : Type 0} → A → (V → Option A) → Name → List (Name × V) → A
  value_or a conversion k entries = elim (value conversion k entries) [ none ↦ a | some b ↦ b ]

  unfoldable pub described : List (Name × V) → CacheOptions → CacheOptions
  described entries c = record {
    size_ = value_or c.size_ node.as_size size entries;
    block_size_ = value_or c.block_size_ node.as_size block_size entries;
    time_out_ = value_or c.time_out_ node.as_int time_out entries;
    is_lru = value_or c.is_lru to_policy eviction_policy entries;
  }

  -- the part of it whose names are among some entries
  unfoldable merged : List (Name × V) → List (Name × V) → CacheOptions → CacheOptions
  merged entries kvs c =
      let d = described entries c in
      record {
        size_ = if has size kvs then d.size_ else c.size_;
        block_size_ = if has block_size kvs then d.block_size_ else c.block_size_;
        time_out_ = if has time_out kvs then d.time_out_ else c.time_out_;
        is_lru = if has eviction_policy kvs then d.is_lru else c.is_lru;
      }

  converts-value :
      {A : Type 0} (conversion : V → Option A) (k : Name) (entries : List (Name × V))
      → converts conversion k entries ≡ true
      → has k entries ≡ true
      → (a : A) × (value conversion k entries ≡ some a)
  unfolding converts
  converts-value conversion k entries good h = elim (Option-cases (value conversion k entries)) [
    | inl miss ↦ absurd (ground arith)
    | inr (a, hit) ↦ (a, hit)
  ]

  has_behind :
      (k n : Name) (v : V) (kvs : List (Name × V)) → has k kvs ≡ true → has k ((n, v) ∷ kvs) ≡ true
  unfolding has lookup
  has_behind k n v kvs h = elim (Bool-cases (same_name n k)) [
    | inl same ↦ rw (lookup, same) refl
    | inr other ↦ rw (lookup, other) h
  ]

  chosen : {A : Type 0} (b : Bool) (a : A) → (if b then a else a) ≡ a
  chosen true a = refl
  chosen false a = refl

  size_step :
      (entries kvs : List (Name × V)) (v : V) (c : CacheOptions) (a : ℕ)
      → value node.as_size size entries ≡ some a
      → (parse_option entries size c ≡ done (record c { size_ = a }))
        × (merged entries kvs (record c { size_ = a }) ≡ merged entries ((size, v) ∷ kvs) c)
  unfolding parse_option merged described value_or has lookup same_name
  size_step entries kvs v c a hit = (
    rw (parse_option, hit) refl,
    rw (merged, described, value_or, hit)
        (ap (λ n. record (merged entries kvs c) { size_ = n }) (chosen (has size kvs) a)),
  )

  block_size_step :
      (entries kvs : List (Name × V)) (v : V) (c : CacheOptions) (a : ℕ)
      → value node.as_size block_size entries ≡ some a
      → (parse_option entries block_size c ≡ done (record c { block_size_ = a }))
        × (merged entries kvs (record c { block_size_ = a })
            ≡ merged entries ((block_size, v) ∷ kvs) c)
  unfolding parse_option merged described value_or has lookup same_name
  block_size_step entries kvs v c a hit = (
    rw (parse_option, hit) refl,
    rw (merged, described, value_or, hit)
        (ap (λ n. record (merged entries kvs c) { block_size_ = n })
          (chosen (has block_size kvs) a)),
  )

  time_out_step :
      (entries kvs : List (Name × V)) (v : V) (c : CacheOptions) (a : ℤ)
      → value node.as_int time_out entries ≡ some a
      → (parse_option entries time_out c ≡ done (record c { time_out_ = a }))
        × (merged entries kvs (record c { time_out_ = a }) ≡ merged entries ((time_out, v) ∷ kvs) c)
  unfolding parse_option merged described value_or has lookup same_name
  time_out_step entries kvs v c a hit = (
    rw (parse_option, hit) refl,
    rw (merged, described, value_or, hit)
        (ap (λ n. record (merged entries kvs c) { time_out_ = n }) (chosen (has time_out kvs) a)),
  )

  set_policy_lem :
      (p : Policy) (b : Bool) (c : CacheOptions)
      → flag_of p ≡ some b
      → set_policy p c ≡ done (record c { is_lru = b })
  unfolding set_policy flag_of
  set_policy_lem lru b c h = ap (λ k. done (record c { is_lru = k })) (ground arith)
  set_policy_lem rnd b c h = ap (λ k. done (record c { is_lru = k })) (ground arith)
  set_policy_lem invalid b c h = absurd (ground arith)

  policy_step :
      (entries kvs : List (Name × V)) (v : V) (c : CacheOptions) (b : Bool)
      → value to_policy eviction_policy entries ≡ some b
      → (parse_option entries eviction_policy c ≡ done (record c { is_lru = b }))
        × (merged entries kvs (record c { is_lru = b })
            ≡ merged entries ((eviction_policy, v) ∷ kvs) c)
  unfolding parse_option merged described value value_or to_policy has lookup same_name
  policy_step entries kvs v c b hit = (
    elim (Option-cases (lookup eviction_policy entries)) [
      | inl miss ↦ absurd (ground arith)
      | inr (w, found) ↦ elim (Option-cases (node.as_policy w)) [
        | inl miss ↦ absurd (ground arith)
        | inr (p, e) ↦ rw (parse_option, value, found, e) (set_policy_lem p b c (ground arith))
      ]
    ],
    rw (merged, described, value_or, hit)
        (ap (λ n. record (merged entries kvs c) { is_lru = n })
          (chosen (has eviction_policy kvs) b)),
  )

  first : (n : Name) (v : V) (kvs : List (Name × V)) → has n ((n, v) ∷ kvs) ≡ true
  unfolding has lookup same_name
  first size v kvs = refl
  first block_size v kvs = refl
  first time_out v kvs = refl
  first eviction_policy v kvs = refl
  first unknown v kvs = refl

  parse_step :
      (n : Name) (entries kvs : List (Name × V)) (v : V) (c : CacheOptions)
      → is_good entries ≡ true
      → has n entries ≡ true
      → (c' : CacheOptions) × (parse_option entries n c ≡ done c')
        × (merged entries kvs c' ≡ merged entries ((n, v) ∷ kvs) c)
  unfolding is_good parse_option merged has lookup same_name
  parse_step size entries kvs v c good h =
      let (a, hit) = converts-value node.as_size size entries (ground arith) h in
      let (step, same) = size_step entries kvs v c a hit in (record c { size_ = a }, step, same)
  parse_step block_size entries kvs v c good h =
      let (a, hit) = converts-value node.as_size block_size entries (ground arith) h in
      let (step, same) = block_size_step entries kvs v c a hit in
      (record c { block_size_ = a }, step, same)
  parse_step time_out entries kvs v c good h =
      let (a, hit) = converts-value node.as_int time_out entries (ground arith) h in
      let (step, same) = time_out_step entries kvs v c a hit in
      (record c { time_out_ = a }, step, same)
  parse_step eviction_policy entries kvs v c good h =
      let (a, hit) = converts-value to_policy eviction_policy entries (ground arith) h in
      let (step, same) = policy_step entries kvs v c a hit in (record c { is_lru = a }, step, same)
  parse_step unknown entries kvs v c good h = (c, refl, refl)

  parse_lem :
      (entries kvs : List (Name × V)) (c : CacheOptions)
      → is_good entries ≡ true
      → ((k : Name) → has k kvs ≡ true → has k entries ≡ true)
      → parse_options entries kvs c ≡ done (merged entries kvs c)
  unfolding parse_options merged has lookup
  parse_lem entries [] c good sub = refl
  parse_lem entries ((n, v) ∷ kvs) c good sub =
      let (c', step, same) = parse_step n entries kvs v c good (sub n (first n v kvs)) in
      rw (parse_options, step)
        (parse_lem entries kvs c' good (λ k h. sub k (has_behind k n v kvs h)) ∙ ap done same)

  given :
      {A : Type 0} (conversion : V → Option A) (k : Name) (entries : List (Name × V)) (a : A)
      → (if has k entries then value_or a conversion k entries else a)
        ≡ value_or a conversion k entries
  unfolding has value_or value
  given conversion k entries a = elim (Option-cases (lookup k entries)) [
    | inl miss ↦ rw (has, value_or, value, miss) refl
    | inr (v, found) ↦ rw (has, value_or, value, found) refl
  ]

  -- Where every option that is there converts, and the policy is lru or rnd, the constructor gives the
  -- configuration whose options are each what the first entry of the name says, or the default,
  -- whatever the order of the entries and the names that it does not know.
  pub data_cache_config_lem :
      (entries : List (Name × V))
      → is_good entries ≡ true
      → data_cache_config entries ≡ done (described entries default_options)
  unfolding data_cache_config merged described
  data_cache_config_lem entries good =
      parse_lem entries entries default_options good (λ k h. h)
      ∙ ap done (
          rw
            (
              merged,
              described,
              given node.as_size size entries (1024 * 1024 * 1024),
              given node.as_size block_size entries (16 * 1024),
              given node.as_int time_out entries (pos 30),
              given to_policy eviction_policy entries false,
            )
            refl)
