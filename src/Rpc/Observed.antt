-- ===== src/Rpc/Observed.antt =====
-- What a client of the remote layer is meant to see: of a reply, the parts that the operation gives back,
-- as long as the numbers of the request and of the reply fit the fields of their messages.
use rsafe_fs.Base.{
  ℕ, ◌^◌, ◌<◌, ◌≤◌, ◌≡◌, ℤ, pos, negsuc, List, [], All, length, zero, suc, Bool, true, false,
  if◌then◌else◌,
}
use rsafe_fs.Fuse.{Request, Reply, Layer, ok_reply}
use rsafe_fs.Messages.Roundtrip.{
  IntFits, OffFits, TimespecFits, FileInfoFits, StatFits, StatvfsFits, DirEntryFits,
}
use rsafe_fs.Rpc.Answers.{resized}
use rsafe_fs.Rpc.Client.{failed}

-- The bytes in `buf` are as many as the result says, and not more than there was room for.
abbrev pub Counted : ℕ → ℤ → List ℕ → Type 0
Counted size (pos n) bytes = (length bytes ≡ n) × (n ≤ size)
Counted size (negsuc n) bytes = bytes ≡ []

pub record ReplyFits (r : Reply) : Type 0 where
  pub res_fits : IntFits r.res
  pub stbuf_fits : StatFits r.stbuf
  pub info_fits : FileInfoFits r.info
  pub vfs_fits : StatvfsFits r.vfs
  pub entries_fits : All DirEntryFits r.entries

module _ {FilePath : Type 0} where
  abbrev pub RequestFits : Request FilePath → Type 0
  RequestFits (Request.getattr path) = Unit
  RequestFits (Request.fgetattr path fi) = FileInfoFits fi
  RequestFits (Request.access path mask) = mask < 2 ^ 31
  RequestFits (Request.readlink path size) = size < 2 ^ 64
  RequestFits (Request.opendir path fi) = FileInfoFits fi
  RequestFits (Request.readdir path offset fi) = OffFits offset × FileInfoFits fi
  RequestFits (Request.releasedir path fi) = FileInfoFits fi
  RequestFits (Request.mknod path mode rdev) = (mode < 2 ^ 32) × (rdev < 2 ^ 64)
  RequestFits (Request.mkdir path mode) = mode < 2 ^ 32
  RequestFits (Request.symlink from to) = Unit
  RequestFits (Request.unlink path) = Unit
  RequestFits (Request.rmdir path) = Unit
  RequestFits (Request.rename from to) = Unit
  RequestFits (Request.link from to) = Unit
  RequestFits (Request.chmod path mode) = mode < 2 ^ 32
  RequestFits (Request.chown path uid gid) = (uid < 2 ^ 32) × (gid < 2 ^ 32)
  RequestFits (Request.truncate path size) = OffFits size
  RequestFits (Request.ftruncate path size fi) = OffFits size × FileInfoFits fi
  RequestFits (Request.utimens path tim0 tim1) = TimespecFits tim0 × TimespecFits tim1
  RequestFits (Request.create path mode fi) = (mode < 2 ^ 32) × FileInfoFits fi
  RequestFits (Request.open_file path fi) = FileInfoFits fi
  RequestFits (Request.read path size offset fi) =
      (size < 2 ^ 64) × OffFits offset × FileInfoFits fi
  RequestFits (Request.write path buf offset fi) =
      (length buf < 2 ^ 64) × OffFits offset × FileInfoFits fi
  RequestFits (Request.statfs path) = Unit
  RequestFits (Request.flush path fi) = FileInfoFits fi
  RequestFits (Request.release path fi) = FileInfoFits fi
  RequestFits (Request.fsync path isdatasync fi) = IntFits isdatasync × FileInfoFits fi
  RequestFits (Request.fallocate path mode offset len fi) =
      (mode < 2 ^ 31) × OffFits offset × OffFits len × FileInfoFits fi
  RequestFits (Request.setxattr path name value flags) = (length value < 2 ^ 64) × (flags < 2 ^ 31)
  RequestFits (Request.getxattr path name size) = size < 2 ^ 64
  RequestFits (Request.listxattr path size) = size < 2 ^ 64
  RequestFits (Request.removexattr path name) = Unit

  -- The calls that leave bytes in a buffer say how many.
  abbrev pub BytesFit : Request FilePath → Reply → Type 0
  BytesFit (Request.read path size offset fi) r = Counted size r.res r.buf
  BytesFit (Request.getxattr path name size) r = Counted size r.res r.buf
  BytesFit (Request.listxattr path size) r = Counted size r.res r.buf
  BytesFit r reply = Unit

  -- The request that the server's operations get: the client sets `flush` in a write.
  unfoldable pub sent : Request FilePath → Request FilePath
  sent (Request.write path buf offset fi) = Request.write path buf offset (record fi { flush = 1 })
  sent r = r

  -- The part of a reply that the operation gives back; a link's target fills the whole buffer.
  unfoldable pub observed : Request FilePath → Reply → Reply
  observed (Request.getattr path) r = record ok_reply { res = r.res; stbuf = r.stbuf }
  observed (Request.fgetattr path fi) r = record ok_reply {
    res = r.res;
    stbuf = r.stbuf;
    info = r.info;
  }
  observed (Request.readlink path size) r = record ok_reply {
    res = r.res;
    buf = resized size r.buf;
  }
  observed (Request.opendir path fi) r = record ok_reply { res = r.res; info = r.info }
  observed (Request.readdir path offset fi) r = record ok_reply {
    res = r.res;
    entries = r.entries;
    info = r.info;
  }
  observed (Request.releasedir path fi) r = record ok_reply { res = r.res; info = r.info }
  observed (Request.ftruncate path size fi) r = record ok_reply { res = r.res; info = r.info }
  observed (Request.create path mode fi) r = record ok_reply { res = r.res; info = r.info }
  observed (Request.open_file path fi) r = record ok_reply { res = r.res; info = r.info }
  observed (Request.read path size offset fi) r = record ok_reply {
    res = r.res;
    buf = r.buf;
    info = r.info;
  }
  observed (Request.write path buf offset fi) r = record ok_reply { res = r.res; info = r.info }
  observed (Request.statfs path) r = record ok_reply { res = r.res; vfs = r.vfs }
  observed (Request.flush path fi) r = record ok_reply { res = r.res; info = r.info }
  observed (Request.release path fi) r = record ok_reply { res = r.res; info = r.info }
  observed (Request.fsync path isdatasync fi) r = record ok_reply { res = r.res; info = r.info }
  observed (Request.fallocate path mode offset len fi) r = record ok_reply {
    res = r.res;
    info = r.info;
  }
  observed (Request.getxattr path name size) r = record ok_reply { res = r.res; buf = r.buf }
  observed (Request.listxattr path size) r = record ok_reply { res = r.res; buf = r.buf }
  observed request r = record ok_reply { res = r.res }

  -- What a caller is left with when a call fails: -1 and its own handle, which a write has marked.
  unfoldable pub lost : Request FilePath → Reply
  lost (Request.fgetattr path fi) = record failed { info = fi }
  lost (Request.opendir path fi) = record failed { info = fi }
  lost (Request.readdir path offset fi) = record failed { info = fi }
  lost (Request.releasedir path fi) = record failed { info = fi }
  lost (Request.ftruncate path size fi) = record failed { info = fi }
  lost (Request.create path mode fi) = record failed { info = fi }
  lost (Request.open_file path fi) = record failed { info = fi }
  lost (Request.read path size offset fi) = record failed { info = fi }
  lost (Request.write path buf offset fi) = record failed { info = record fi { flush = 1 } }
  lost (Request.flush path fi) = record failed { info = fi }
  lost (Request.release path fi) = record failed { info = fi }
  lost (Request.fsync path isdatasync fi) = record failed { info = fi }
  lost (Request.fallocate path mode offset len fi) = record failed { info = fi }
  lost request = failed

  -- The executions that a call may cost: a read or a write over a stream that fails is asked again.
  abbrev is_streamed : Request FilePath → Bool
  is_streamed (Request.read path size offset fi) = true
  is_streamed (Request.write path buf offset fi) = true
  is_streamed request = false

  abbrev pub attempts : Request FilePath → ℕ
  attempts request = if is_streamed request then 2 else 1

module _ {FilePath S : Type 0} (operations : Layer FilePath S) where
  -- The operation called directly, and the part of its reply that the caller is to see.
  unfoldable pub direct : Request FilePath → S → Reply × S
  direct request s = let (r, s') = operations (sent request) s in (observed request r, s')

  -- the state after a request was carried out `k` times
  unfoldable pub times : Request FilePath → ℕ → S → S
  times request zero s = s
  times request (suc k) s = (direct request (times request k s)).1

  -- The operations give only replies that fit, to a request that does.
  abbrev pub Fitting : Request FilePath → Type 0
  Fitting request =
      (s : S)
      → ReplyFits (operations (sent request) s).0 × BytesFit request (operations (sent request) s).0
