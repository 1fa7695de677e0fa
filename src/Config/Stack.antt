-- ===== src/Config/Stack.antt =====
-- The composition of the layers: `init_layer` of each layer, and `utils::stack_operation_` of
-- include/rsafefs/utils/utils.hpp. A function pointer is the name of the function: whose it is, and
-- which operation. `have_utimensat` is the macro that the build may define.
pub mod Unstacked
use rsafe_fs.Base.{Bool, true, false, List, [], ◌∷◌, ◌++◌, Option, none, some, ite, if◌then◌else◌}
use rsafe_fs.Config.{
  Kind, Mode, LayerConfig, Error, Result, ok, throw, ◌>>=◌, ◌>>◌, null_operation, is_valid,
  make_layers,
}
use Prim.Native.String.{String}

-- the members of `struct fuse_operations` that some layer sets
pub data Slot : Type 0 where
  init destroy getattr fgetattr access readlink opendir readdir releasedir mknod mkdir symlink
        unlink rmdir rename link :
      Slot
  chmod chown truncate ftruncate utime utimens create open_file read write statfs flush release
        fsync :
      Slot

unfoldable pub Slot-discrete : Discrete Slot
Slot-discrete = hlevel

-- the files whose functions the pointers name
pub data Owner : Type 0 where
  local_file nfs_file rpc_client_file data_cache_file metadata_cache_file read_ahead_file : Owner

pub record Pointer : Type 0 where
  pub owner : Owner
  pub slot : Slot

abbrev pub Table : Type 0
Table = Slot → Option Pointer

-- The table that is built, and each file's static `next_layer`.
pub record Statics : Type 0 where
  pub operations : Table
  pub data_cache_next : Table
  pub metadata_cache_next : Table
  pub read_ahead_next : Table

-- `memset(&operations_, 0, sizeof(operations_))`; the statics are zeroed too.
abbrev pub start : Statics
start = record {
  operations = λ s. none;
  data_cache_next = λ s. none;
  metadata_cache_next = λ s. none;
  read_ahead_next = λ s. none;
}

-- `operations.s = f;` for each slot of a list
unfoldable pub assign_slots : Owner → List Slot → Table → Table
assign_slots o [] t = t
assign_slots o (s ∷ ss) t =
    assign_slots o ss (λ q. ite (Slot-discrete s q) (some (record { owner = o; slot = s })) (t q))

-- `stack_operation_(T &top_opr, T *bottom_opr, …)`: the pointer is passed by value, so the assignment
-- `bottom_opr = top_opr` is to the parameter, and the caller's table is as it was.
unfoldable pub stack_operation_ : Pointer → Option Pointer → Result (Unit {0})
stack_operation_ top none = throw null_operation
stack_operation_ top (some bottom) = let bottom = top in ok tt

-- `utils::stack_operation(o_s, operations.s);` for each slot of a list, in order
unfoldable pub stack_operations : Owner → List Slot → Table → Result Table
stack_operations o [] t = ok t
stack_operations o (s ∷ ss) t =
    stack_operation_ (record { owner = o; slot = s }) (t s) >> stack_operations o ss t

abbrev pub local_slots : List Slot
local_slots =
    init ∷ destroy ∷ getattr ∷ fgetattr ∷ opendir ∷ flush ∷ ftruncate ∷ access ∷ readlink
    ∷ releasedir ∷ readdir ∷ mknod ∷ mkdir ∷ symlink ∷ unlink ∷ rmdir ∷ rename ∷ link ∷ chmod
    ∷ chown ∷ truncate ∷ utime ∷ open_file ∷ create ∷ read ∷ write ∷ statfs ∷ release ∷ fsync ∷ []

abbrev pub nfs_slots : List Slot
nfs_slots =
    init ∷ destroy ∷ getattr ∷ fgetattr ∷ access ∷ readlink ∷ opendir ∷ readdir ∷ releasedir ∷ mknod
    ∷ mkdir ∷ symlink ∷ unlink ∷ rmdir ∷ rename ∷ link ∷ chmod ∷ chown ∷ truncate ∷ ftruncate
    ∷ utimens ∷ create ∷ open_file ∷ read ∷ write ∷ statfs ∷ flush ∷ release ∷ fsync ∷ []

abbrev pub rpc_client_slots : List Slot
rpc_client_slots =
    init ∷ destroy ∷ getattr ∷ fgetattr ∷ access ∷ readlink ∷ opendir ∷ readdir ∷ releasedir ∷ mknod
    ∷ mkdir ∷ symlink ∷ unlink ∷ rmdir ∷ rename ∷ link ∷ chmod ∷ chown ∷ truncate ∷ ftruncate
    ∷ utimens ∷ create ∷ open_file ∷ read ∷ write ∷ statfs ∷ flush ∷ release ∷ fsync ∷ []

abbrev pub metadata_cache_slots : List Slot
metadata_cache_slots =
    init ∷ destroy ∷ getattr ∷ fgetattr ∷ mknod ∷ mkdir ∷ symlink ∷ unlink ∷ rmdir ∷ rename ∷ link
    ∷ chmod ∷ chown ∷ truncate ∷ ftruncate ∷ create ∷ open_file ∷ flush ∷ release ∷ fsync ∷ []

-- those of the data cache, and of the read-ahead layer
abbrev pub read_slots : List Slot
read_slots = init ∷ destroy ∷ open_file ∷ read ∷ release ∷ []

unfoldable pub assign_local_operations : Bool → Table → Table
assign_local_operations have_utimensat t =
    assign_slots local_file (if have_utimensat then local_slots ++ (utimens ∷ []) else local_slots)
      t

unfoldable pub assign_nfs_operations : Table → Table
assign_nfs_operations = assign_slots nfs_file nfs_slots

module _ (have_utimensat : Bool) where
  -- `init_layer` of each class
  unfoldable pub init_kind : Kind → Mode → Statics → Result Statics
  init_kind Kind.data_cache mode st = do
    t ← stack_operations data_cache_file read_slots st.operations
    ok (record st { operations = t; data_cache_next = st.operations })
  init_kind Kind.local Mode.nfs st =
      ok (record st { operations = assign_nfs_operations st.operations })
  init_kind Kind.local Mode.passthrough st =
      ok (record st { operations = assign_local_operations have_utimensat st.operations })
  init_kind Kind.metadata_cache mode st = do
    t ← stack_operations metadata_cache_file metadata_cache_slots st.operations
    ok (record st { operations = t; metadata_cache_next = st.operations })
  init_kind Kind.read_ahead mode st = do
    t ← stack_operations read_ahead_file read_slots st.operations
    ok (record st { operations = t; read_ahead_next = st.operations })
  init_kind Kind.rpc_client mode st =
      ok (record st { operations = assign_slots rpc_client_file rpc_client_slots st.operations })
  init_kind Kind.rpc_server mode st = ok st

  abbrev pub init_layer : LayerConfig → Statics → Result Statics
  init_layer l = init_kind l.kind l.mode

  -- the loop "Compose the layers stack"
  unfoldable pub init_layers : List LayerConfig → Statics → Result Statics
  init_layers [] st = ok st
  init_layers (l ∷ ls) st = init_layer l st >>= init_layers ls

  -- the constructor and `make`: the layers, their composition, and then the check
  unfoldable pub make : List (String × Mode) → Result (List LayerConfig × Statics)
  make entries = do
    layers ← make_layers entries
    st ← init_layers layers start
    is_valid layers >> ok (layers, st)
