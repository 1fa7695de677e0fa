-- ===== src/Config/Stack/Unstacked.antt =====
-- What the composition of the layers does to the table of operations.
use rsafe_fs.Base.{
  Bool, true, false, List, [], ◌∷◌, Option, none, some, ◌≡◌, refl, sym, ap, ◌∙◌, ite, if_pos,
  if_neg, subst, Option-cases, inl, inr,
}
use Prim.Native.String.{String}
use rsafe_fs.Config.{Kind, Mode, LayerConfig, Result, ok, throw, ◌>>=◌, ◌>>◌, is_valid, make_layers}
use rsafe_fs.Config.Stack.{
  Slot, Slot-discrete, Owner, Pointer, Table, Statics, start, assign_slots, stack_operation_,
  stack_operations, metadata_cache_slots, assign_local_operations, assign_nfs_operations,
  read_slots, nfs_slots, rpc_client_slots, init_kind, init_layer, init_layers, make,
}

-- the layers that stack their operations on those below
unfoldable pub is_cache : Owner → Bool
is_cache Owner.data_cache_file = true
is_cache Owner.metadata_cache_file = true
is_cache Owner.read_ahead_file = true
is_cache o = false

-- Whether an entry of the table is a function of such a layer.
unfoldable pub runs_cache : Option Pointer → Bool
unfolding is_cache
runs_cache none = false
runs_cache (some p) = is_cache p.owner

abbrev pub HasNoCache : Table → Type 0
HasNoCache t = (s : Slot) → runs_cache (t s) ≡ false

-- `P` of the value, if there is one.
abbrev pub OnOk : {A : Type 0} → (A → Type 0) → Result A → Type 0
OnOk P (ok a) = P a
OnOk P (throw e) = Unit

OnOk-bind :
    {A B : Type 0} (P : A → Type 0) (Q : B → Type 0) (m : Result A) (f : A → Result B)
    → OnOk P m
    → ((a : A) → P a → OnOk Q (f a))
    → OnOk Q (m >>= f)
OnOk-bind P Q (ok a) f h k = k a h
OnOk-bind P Q (throw e) f h k = tt

assign_slot-HasNoCache :
    (o : Owner) (s : Slot) (t : Table)
    → is_cache o ≡ false
    → HasNoCache t
    → HasNoCache (λ q. ite (Slot-discrete s q) (some (record { owner = o; slot = s })) (t q))
unfolding runs_cache
assign_slot-HasNoCache o s t h k q = elim (Slot-discrete s q) [
  | yes same ↦
      ap runs_cache (if_pos (Slot-discrete s q) same (some (record { owner = o; slot = s })) (t q))
      ∙ h
  | no other ↦
      ap runs_cache (if_neg (Slot-discrete s q) other (some (record { owner = o; slot = s })) (t q))
      ∙ k q
]

assign_slots-HasNoCache :
    (o : Owner) (ss : List Slot) (t : Table)
    → is_cache o ≡ false
    → HasNoCache t
    → HasNoCache (assign_slots o ss t)
unfolding assign_slots
assign_slots-HasNoCache o [] t h k = k
assign_slots-HasNoCache o (s ∷ ss) t h k =
    assign_slots-HasNoCache o ss _ h (assign_slot-HasNoCache o s t h k)

-- A stacked operation changes nothing of the table.
stack_operations-same :
    (o : Owner) (ss : List Slot) (t : Table) → OnOk (λ u. u ≡ t) (stack_operations o ss t)
unfolding stack_operations stack_operation_
stack_operations-same o [] t = refl
stack_operations-same o (s ∷ ss) t = elim (Option-cases (t s)) [
  | inl null ↦ rw (null, stack_operation_) tt
  | inr (p, set) ↦ rw (set, stack_operation_) (stack_operations-same o ss t)
]

module _ (have_utimensat : Bool) where
  abbrev Keeps : Statics → Type 0
  Keeps st = HasNoCache st.operations

  stacked-HasNoCache :
      (o : Owner) (ss : List Slot) (t : Table) (f : Table → Statics)
      → ((u : Table) → (f u).operations ≡ u)
      → HasNoCache t
      → OnOk Keeps (stack_operations o ss t >>= λ u. ok (f u))
  stacked-HasNoCache o ss t f e h =
      OnOk-bind (λ u. u ≡ t) Keeps (stack_operations o ss t) (λ u. ok (f u))
        (stack_operations-same o ss t) (λ u same. subst HasNoCache (sym (e u ∙ same)) h)

  init_kind-HasNoCache :
      (k : Kind) (m : Mode) (st : Statics) → Keeps st → OnOk Keeps (init_kind have_utimensat k m st)
  unfolding init_kind runs_cache is_cache assign_nfs_operations assign_local_operations
  init_kind-HasNoCache Kind.data_cache m st h =
      stacked-HasNoCache Owner.data_cache_file read_slots st.operations _ (λ u. refl) h
  init_kind-HasNoCache Kind.local Mode.nfs st h =
      assign_slots-HasNoCache Owner.nfs_file nfs_slots st.operations refl h
  init_kind-HasNoCache Kind.local Mode.passthrough st h =
      assign_slots-HasNoCache Owner.local_file _ st.operations refl h
  init_kind-HasNoCache Kind.metadata_cache m st h =
      stacked-HasNoCache Owner.metadata_cache_file metadata_cache_slots st.operations _ (λ u. refl)
        h
  init_kind-HasNoCache Kind.read_ahead m st h =
      stacked-HasNoCache Owner.read_ahead_file read_slots st.operations _ (λ u. refl) h
  init_kind-HasNoCache Kind.rpc_client m st h =
      assign_slots-HasNoCache Owner.rpc_client_file rpc_client_slots st.operations refl h
  init_kind-HasNoCache Kind.rpc_server m st h = h

  init_layers-HasNoCache :
      (ls : List LayerConfig) (st : Statics)
      → Keeps st
      → OnOk Keeps (init_layers have_utimensat ls st)
  unfolding init_layers
  init_layers-HasNoCache [] st h = h
  init_layers-HasNoCache (l ∷ ls) st h =
      OnOk-bind Keeps Keeps (init_layer have_utimensat l st) (init_layers have_utimensat ls)
        (init_kind-HasNoCache l.kind l.mode st h) (init_layers-HasNoCache ls)

  abbrev Built : Result (List LayerConfig × Statics) → Type 0
  Built = OnOk (λ (r : List LayerConfig × Statics). Keeps r.1)

  -- Whatever the configuration, no operation of the table that is built is one of a caching layer.
  pub make_unstacked :
      (entries : List (String × Mode)) (layers : List LayerConfig) (st : Statics)
      → make have_utimensat entries ≡ ok (layers, st)
      → HasNoCache st.operations
  unfolding make runs_cache
  make_unstacked entries layers st e =
      let built : Built (make have_utimensat entries) =
        OnOk-bind (λ ls. Unit {0}) (λ (r : List LayerConfig × Statics). Keeps r.1)
          (make_layers entries) _ (any (make_layers entries))
          (λ ls _.
            OnOk-bind Keeps (λ (r : List LayerConfig × Statics). Keeps r.1)
              (init_layers have_utimensat ls start) _ (init_layers-HasNoCache ls start (λ s. refl))
              (λ st' h. checked (is_valid ls) ls st' h)) in
      rw e at built
    where
      any : {A : Type 0} (m : Result A) → OnOk (λ a. Unit {0}) m
      any (ok a) = tt
      any (throw x) = tt

      checked :
          (m : Result (Unit {0})) (ls : List LayerConfig) (st' : Statics)
          → Keeps st'
          → Built (m >> ok (ls, st'))
      checked (ok a) ls st' h = h
      checked (throw x) ls st' h = tt
