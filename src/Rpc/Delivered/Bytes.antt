-- ===== src/Rpc/Delivered/Bytes.antt =====
-- The bytes and the entries of a reply, as the client copies them from the message.
use rsafe_fs.Base.{
  ℕ, ◌≡◌, refl, sym, ap, arith, ◌∙◌, ℤ, pos, negsuc, List, [], ◌∷◌, ◌++◌, All, length, take,
  replicate, map, take_append, drop, take-take,
}
use rsafe_fs.Fuse.{DirEntry, FileInfo}
use rsafe_fs.Messages.{fill_struct_dir_entry_info}
use rsafe_fs.Messages.Roundtrip.{
  DirEntryFits, FileInfoFits, fill_struct_stat-message, to_off-set_u64,
}
use rsafe_fs.Rpc.Answers.{resized}
use rsafe_fs.Rpc.Client.{copied, dir_entry}
use rsafe_fs.Rpc.Server.Streams.{overwritten}
use rsafe_fs.Rpc.Observed.{Counted}

pub take_all_length : (l : List ℕ) → take (length l) l ≡ l
take_all_length [] = refl
take_all_length (x ∷ l) = ap (◌∷◌ x) (take_all_length l)

-- What follows the bytes of a buffer is not copied.
pub copied-take :
    (size : ℕ) (x : ℤ) (bytes tail : List ℕ)
    → Counted size x bytes
    → copied x (take size (bytes ++ tail)) ≡ bytes
unfolding copied
copied-take size (pos n) bytes tail (e, h) =
    take-take n size (bytes ++ tail) h
    ∙ ap (λ k. take k (bytes ++ tail)) (sym e)
    ∙ take_append bytes tail
copied-take size (negsuc n) bytes tail h = sym h

pub copied-resized :
    (size : ℕ) (x : ℤ) (bytes : List ℕ)
    → Counted size x bytes
    → copied x (resized size bytes) ≡ bytes
unfolding resized
copied-resized size x bytes h = copied-take size x bytes (replicate size 0) h

pub copied-overwritten :
    (size : ℕ) (x : ℤ) (old bytes : List ℕ)
    → Counted size x bytes
    → copied x (overwritten size old bytes) ≡ bytes
unfolding copied overwritten
copied-overwritten size (pos n) old bytes (e, h) =
    ap (λ k. take k (bytes ++ drop (length bytes) (resized size old))) (sym e)
    ∙ take_append bytes (drop (length bytes) (resized size old))
copied-overwritten size (negsuc n) old bytes h = sym h

pub take-resized : (size : ℕ) (bytes : List ℕ) → take size (resized size bytes) ≡ resized size bytes
unfolding resized
take-resized size bytes = take-take size size (bytes ++ replicate size 0) (omega arith)

pub dir_entry-info :
    (es : List DirEntry)
    → All DirEntryFits es
    → map dir_entry (map fill_struct_dir_entry_info es) ≡ es
unfolding dir_entry fill_struct_dir_entry_info
dir_entry-info [] f = refl
dir_entry-info (e ∷ es) (f, fs) =
    rw
      (
        fill_struct_stat-message e.st f.st_fits,
        to_off-set_u64 e.offset f.offset_fits,
        dir_entry-info es fs,
      )
      refl

-- A handle that fits does so with `flush` set.
pub flushed : (fi : FileInfo) → FileInfoFits fi → FileInfoFits (record fi { flush = 1 })
flushed fi f = record {
  flags_fits = f.flags_fits;
  fh_old_fits = f.fh_old_fits;
  writepage_fits = f.writepage_fits;
  direct_io_fits = f.direct_io_fits;
  keep_cache_fits = f.keep_cache_fits;
  flush_fits = omega arith;
  nonseekable_fits = f.nonseekable_fits;
  flock_release_fits = f.flock_release_fits;
  padding_fits = f.padding_fits;
  fh_fits = f.fh_fits;
  lock_owner_fits = f.lock_owner_fits;
}
