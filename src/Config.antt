-- ===== src/Config.antt =====
-- `config` of include/rsafefs/config.hpp and lib/config.cpp: which stacks of layers are accepted,
-- and who runs them. The YAML file is the list of its keys, each with the mode that a `local` layer
-- reads from its options.
pub mod Options
pub mod Role
pub mod Stack
use text.Mathlib.Text.{◌==◌ as str_eq}
use Prim.Native.String.{String}
use rsafe_fs.Base.{
  ℕ, suc, ◌+◌, Bool, true, false, not, ◌&&◌, List, [], ◌∷◌, ltb, ◌==◌, if◌then◌else◌,
}

-- the classes of layers
pub data Kind : Type 0 where
  data_cache local metadata_cache read_ahead rpc_client rpc_server : Kind

-- `local_config::mode`
pub data Mode : Type 0 where
  passthrough nfs : Mode

pub record LayerConfig : Type 0 where
  pub kind : Kind
  pub mode : Mode

-- The exceptions; all but the last two are `wrong_config_exception`, by message.
pub data Error : Type 0 where
  empty_file too_many_servers too_many_clients client_not_first server_not_last : Error
  client_and_server not_implemented null_operation : Error

pub data Result {ℓ} (A : Type ℓ) : Type ℓ where
  ok : A → Result A
  throw : Error → Result A

infixl 5 ◌>>=◌
abbrev pub ◌>>=◌ {ℓ κ} : {A : Type ℓ} {B : Type κ} → Result A → (A → Result B) → Result B
ok a >>= f = f a
throw e >>= f = throw e

infixl 5 ◌>>◌
abbrev pub ◌>>◌ {ℓ} : {B : Type ℓ} → Result (Unit {0}) → Result B → Result B
ok a >> k = k
throw e >> k = throw e

-- `if (bad) throw e;`
abbrev pub throw_if : Bool → Error → Result (Unit {0})
throw_if true e = throw e
throw_if false e = ok tt

-- `instance_of<rpc_client_config>`
unfoldable pub is_rpc_client : LayerConfig → Bool
is_rpc_client l = elim l.kind [ rpc_client ↦ true | _ ↦ false ]

-- `instance_of<rpc_server_config>`
unfoldable pub is_rpc_server : LayerConfig → Bool
is_rpc_server l = elim l.kind [ rpc_server ↦ true | _ ↦ false ]

-- the chain of comparisons in the constructor
unfoldable pub make_layer : String → Mode → Result LayerConfig
make_layer layer mode =
    if str_eq layer "data_cache"
    then ok (record { kind = data_cache; mode = mode })
    else if str_eq layer "local"
    then ok (record { kind = local; mode = mode })
    else if str_eq layer "metadata_cache"
    then ok (record { kind = metadata_cache; mode = mode })
    else if str_eq layer "read_ahead"
    then ok (record { kind = read_ahead; mode = mode })
    else if str_eq layer "rpc_client"
    then ok (record { kind = rpc_client; mode = mode })
    else if str_eq layer "rpc_server"
    then ok (record { kind = rpc_server; mode = mode })
    else throw not_implemented

unfoldable pub make_layers : List (String × Mode) → Result (List LayerConfig)
make_layers [] = ok []
make_layers ((layer, mode) ∷ rest) = do
  l ← make_layer layer mode
  ls ← make_layers rest
  ok (l ∷ ls)

-- the loop of `is_valid`: (`n_clients`, `n_servers`)
unfoldable pub count_rpc : List LayerConfig → ℕ × ℕ → ℕ × ℕ
count_rpc [] n = n
count_rpc (l ∷ ls) (clients, servers) = count_rpc ls (
    if is_rpc_client l
    then (clients + 1, servers)
    else if is_rpc_server l
    then (clients, servers + 1)
    else (clients, servers))

-- `layers_.front()` and `layers_.back()`, tested; of an empty vector they are undefined.
unfoldable pub front_is : (LayerConfig → Bool) → List LayerConfig → Bool
front_is p [] = false
front_is p (l ∷ ls) = p l

unfoldable pub back_is : (LayerConfig → Bool) → List LayerConfig → Bool
back_is p [] = false
back_is p (l ∷ []) = p l
back_is p (l ∷ m ∷ ls) = back_is p (m ∷ ls)

unfoldable pub is_empty : List LayerConfig → Bool
is_empty [] = true
is_empty (l ∷ ls) = false

unfoldable pub is_valid : List LayerConfig → Result (Unit {0})
is_valid layers = do
  throw_if (is_empty layers) empty_file
  let n = count_rpc layers (0, 0)
  throw_if (ltb 1 n.1) too_many_servers
  throw_if (ltb 1 n.0) too_many_clients
  throw_if ((n.0 == 1) && not (front_is is_rpc_client layers)) client_not_first
  throw_if ((n.1 == 1) && not (back_is is_rpc_server layers)) server_not_last
  throw_if ((n.1 == 1) && (n.0 == 1)) client_and_server

-- The loop stops at the first server.
unfoldable pub is_client : List LayerConfig → Bool
is_client [] = true
is_client (l ∷ ls) = if is_rpc_server l then false else is_client ls

unfoldable pub is_server : List LayerConfig → Bool
is_server layers = back_is is_rpc_server layers
