-- ===== src/Tests/Options.antt =====
-- A data cache with an unknown option, a size that is given twice and a policy.
use rsafe_fs.Base.{ℕ, ◌≡◌, refl, true, List, [], ◌∷◌, Option, none, some, ℤ, pos}
use rsafe_fs.Config.Options.{
  Name, Policy, Conversions, done, default_options, data_cache_config, is_good, described, lookup,
  value, converts, has, same_name, to_policy, flag_of, data_cache_config_lem,
}

-- a value of a YAML file
data Value : Type 0 where
  number : ℕ → Value
  policy : Policy → Value

abbrev to_number : Value → Option ℕ
to_number (number n) = some n
to_number (policy p) = none

abbrev to_int : Value → Option ℤ
to_int (number n) = some (pos n)
to_int (policy p) = none

abbrev to_name : Value → Option Policy
to_name (number n) = some Policy.invalid
to_name (policy p) = some p

abbrev node : Conversions Value
node = record { as_size = to_number; as_int = to_int; as_policy = to_name }

abbrev options : List (Name × Value)
options =
    (Name.unknown, number 5)
    ∷ (Name.size, number 4096)
    ∷ (Name.eviction_policy, policy Policy.lru)
    ∷ (Name.size, number 7)
    ∷ []

options_good : is_good node options ≡ true
unfolding is_good converts has lookup value same_name to_policy flag_of
options_good = refl

data_cache_config_lem_example :
    data_cache_config node options ≡ done (described node options default_options)
data_cache_config_lem_example = data_cache_config_lem node options options_good
