-- ===== src/MetadataCache/Layer/Bounded.antt =====
-- The invariant of the cache, through every operation of the layer.
use rsafe_fs.Base.{
  ℕ, ◌≡◌, refl, false, List, [], ◌∷◌, Option, is_zero, Option-cases, Bool-cases, inl, inr,
}
use rsafe_fs.Eviction.{EvictionPolicy}
use rsafe_fs.Fuse.{FileInfo, Stat, Request, Reply, ok_reply}
use rsafe_fs.Fuse
use rsafe_fs.MetadataCache.{Config, Cache, get}
use rsafe_fs.MetadataCache.Invariant.{IsValid, get-IsValid, put-IsValid, remove-IsValid}
use rsafe_fs.MetadataCache.Layer
use rsafe_fs.MetadataCache.Layer.{State, handle}
use rsafe_fs.MetadataCache.Layer.Coherence.{forgets, handle_forward}
use rsafe_fs.MetadataCache.Layer.View.{is_stat, affected}

module _ {K : Type 0} (dec : Discrete K) (P : EvictionPolicy dec) (config : Config)
    (parent : K → Option K) {S : Type 0} (next : Fuse.Layer K S) where
  forgets-IsValid :
      (ps : List K) {c : Cache P}
      → IsValid dec P config c
      → IsValid dec P config (forgets dec P config parent next ps c)
  unfolding forgets
  forgets-IsValid [] v = v
  forgets-IsValid (p ∷ ps) v = forgets-IsValid ps (remove-IsValid dec P config v p)

  store-IsValid :
      (later : ℕ) (path : K) (r : Reply) (s : S) {c : Cache P}
      → IsValid dec P config c
      → IsValid dec P config (Layer.store dec P config parent next later path (r, s) c).1.0
  unfolding Layer.store
  store-IsValid later path r s v = elim (Bool-cases (is_zero r.res)) [
    | inl good ↦ rw (good, Layer.store) (put-IsValid dec P config v later path r.stbuf)
    | inr bad ↦ rw (bad, Layer.store) v
  ]

  forward-IsValid :
      (now later : ℕ) (r : Request K) (c : Cache P) (s : S)
      → is_stat r ≡ false
      → IsValid dec P config c
      → IsValid dec P config (handle dec P config parent next now later r (c, s)).1.0
  forward-IsValid now later r c s h v =
      rw (handle_forward dec P config parent next now later r c s h)
        (forgets-IsValid (affected parent r) v)

  -- Every operation, hit or miss, keeps the cache within its bound and in step with its policy.
  pub handle-IsValid :
      (now later : ℕ) (r : Request K) (c : Cache P) (s : S)
      → IsValid dec P config c
      → IsValid dec P config (handle dec P config parent next now later r (c, s)).1.0
  unfolding handle is_stat
  handle-IsValid now later (Request.getattr path) c s v =
      elim (Option-cases (get dec P config now path c).0) [
        | inl miss ↦
            let (r, s') = next (Request.getattr path) s in
            rw (miss, Layer.metadata_cache_getattr)
              (store-IsValid later path r s' (get-IsValid dec P config v now path))
        | inr (st, hit) ↦
            rw (hit, Layer.metadata_cache_getattr) (get-IsValid dec P config v now path)
      ]
  handle-IsValid now later (Request.fgetattr path fi) c s v =
      elim (Option-cases (get dec P config now path c).0) [
        | inl miss ↦
            let (r, s') = next (Request.fgetattr path fi) s in
            rw (miss, Layer.metadata_cache_fgetattr)
              (store-IsValid later path r s' (get-IsValid dec P config v now path))
        | inr (st, hit) ↦
            rw (hit, Layer.metadata_cache_fgetattr) (get-IsValid dec P config v now path)
      ]
  handle-IsValid now later r c s v = forward-IsValid now later r c s refl v
