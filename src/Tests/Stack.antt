-- ===== src/Tests/Stack.antt =====
-- The composition of a `local` layer and the data cache.
use rsafe_fs.Base.{◌≡◌, refl, Bool, true, false, List, [], ◌∷◌}
use Prim.Native.String.{String}
use rsafe_fs.Config.{
  Mode, LayerConfig, Result, ok, throw, is_valid, make_layers, make_layer, count_rpc, front_is,
  back_is, is_empty, is_rpc_client, is_rpc_server,
}
use rsafe_fs.Config.Stack.{
  Slot, Slot-discrete, Statics, start, assign_slots, stack_operation_, stack_operations,
  assign_local_operations, init_kind, init_layers, make,
}
use rsafe_fs.Config.Stack.Unstacked.{runs_cache, make_unstacked}

abbrev entries : List (String × Mode)
entries = ("local", Mode.passthrough) ∷ ("data_cache", Mode.passthrough) ∷ []

built : Result (List LayerConfig × Statics) → List LayerConfig × Statics
built (ok r) = r
built (throw e) = ([], start)

abbrev result : List LayerConfig × Statics
result = built (make false entries)

is_ok : Result (List LayerConfig × Statics) → Bool
is_ok (ok r) = true
is_ok (throw e) = false

ok-built : (r : Result (List LayerConfig × Statics)) → is_ok r ≡ true → r ≡ ok (built r)
unfolding is_ok built
ok-built (ok r) h = refl
ok-built (throw e) h = cc

makes : is_ok (make false entries) ≡ true
unfolding make make_layers make_layer init_layers init_kind stack_operations stack_operation_
    assign_local_operations assign_slots is_valid count_rpc front_is back_is is_empty is_rpc_client
    is_rpc_server is_ok Slot-discrete
makes = refl

accepted : make false entries ≡ ok result
accepted = ok-built (make false entries) makes

make_unstacked_example : runs_cache (result.1.operations Slot.read) ≡ false
make_unstacked_example = make_unstacked false entries result.0 result.1 accepted Slot.read
