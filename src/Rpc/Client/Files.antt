-- ===== src/Rpc/Client/Files.antt =====
-- The operations on open files and on extended attributes of the synchronous client
-- (lib/fuse_rpc/grpc/sync_client.cpp).
use rsafe_fs.Base.{ℕ, ℤ, List, length, Option, none, some, if◌then◌else◌}
use rsafe_fs.Base.Dict.{member}
use rsafe_fs.Fuse.{FileInfo, Reply, ok_reply}
use rsafe_fs.Messages.{
  set_i32, set_u32, set_u64, set_int, get_int, set_i64, fill_struct_file_info_message,
  fill_fuse_file_info, fill_struct_statvfs,
}
use rsafe_fs.Rpc.Answers.{Call, Answer, Kind, reading, writing, Network}
use rsafe_fs.Rpc.Client.{failed, copied, is_minus_one, State, create_streams, remove_streams, unary}

module _ {FilePath N : Type 0} (dec : Discrete FilePath) (net : Network FilePath N) where
  -- The flags that were opened decide which streams are made, unless the server failed.
  unfoldable pub opened : FilePath → FileInfo → Answer → State FilePath N → Reply × State FilePath N
  opened path fi a st =
      let res = get_int a.result in
      (
        record ok_reply { res = res; info = fill_fuse_file_info a.info },
        if is_minus_one res then st else create_streams dec net path fi.flags st,
      )

  unfoldable pub create : FilePath → ℕ → FileInfo → State FilePath N → Reply × State FilePath N
  create path mode fi (c, n) =
      let request = Call.create path (set_u32 mode) (fill_struct_file_info_message fi) in
      let (answer, n') = net.unary request n in
      elim answer [
        | none ↦ (record failed { info = fi }, (c, n'))
        | some a ↦ opened path fi a (c, n')
      ]

  unfoldable pub open_file : FilePath → FileInfo → State FilePath N → Reply × State FilePath N
  open_file path fi (c, n) =
      let (answer, n') = net.unary (Call.open_file path (fill_struct_file_info_message fi)) n in
      elim answer [
        | none ↦ (record failed { info = fi }, (c, n'))
        | some a ↦ opened path fi a (c, n')
      ]

  -- The request without a stream, whose success makes the stream of `flags`.
  unfoldable pub sync_request :
      FilePath → ℕ → Call FilePath → State FilePath N → Option Answer × State FilePath N
  sync_request path flags request (c, n) =
      let (answer, n') = net.unary request n in
      elim answer [
        | none ↦ (none, (c, n'))
        | some a ↦ (some a, create_streams dec net path flags (c, n'))
      ]

  -- The exchange on the stream of a path that has one; when it fails, the streams of the path are
  -- removed and the request is made without.
  unfoldable pub exchange :
      Kind → FilePath → ℕ → Call FilePath → State FilePath N → Option Answer × State FilePath N
  exchange kind path flags request (c, n) =
      let (sent, n₁) = net.stream_write kind path request n in
      let (answer, n₂) = net.stream_read kind path n₁ in
      if sent
      then elim answer [
        | none ↦ sync_request path flags request (remove_streams dec net path (c, n₂))
        | some a ↦ (some a, (c, n₂))
      ]
      else sync_request path flags request (remove_streams dec net path (c, n₁))

  unfoldable pub read : FilePath → ℕ → ℤ → FileInfo → State FilePath N → Reply × State FilePath N
  read path size offset fi (c, n) =
      let request =
        Call.read path (set_u64 size) (set_i64 offset) (fill_struct_file_info_message fi) in
      let (answer, st) =
        if member dec path c.read_streams
        then exchange reading path 0 request (c, n)
        else sync_request path 0 request (c, n) in
      elim answer [
        | none ↦ (record failed { info = fi }, st)
        | some a ↦ (
          record ok_reply {
            res = get_int a.result;
            buf = copied (get_int a.result) a.buf;
            info = fill_fuse_file_info a.info;
          },
          st,
        )
      ]

  -- `flush` is set first, which says that the request is synchronous.
  unfoldable pub write :
      FilePath → List ℕ → ℤ → FileInfo → State FilePath N → Reply × State FilePath N
  write path buf offset fi₀ (c, n) =
      let fi : FileInfo = record fi₀ { flush = 1 } in
      let request =
        Call.write path (set_u64 (length buf)) (set_i64 offset) buf
          (fill_struct_file_info_message fi) in
      let (answer, st) =
        if member dec path c.write_streams
        then exchange writing path 1 request (c, n)
        else sync_request path 1 request (c, n) in
      elim answer [
        | none ↦ (record failed { info = fi }, st)
        | some a ↦
            (record ok_reply { res = get_int a.result; info = fill_fuse_file_info a.info }, st)
      ]

  unfoldable pub release : FilePath → FileInfo → State FilePath N → Reply × State FilePath N
  release path fi (c, n) =
      let (answer, n') = net.unary (Call.release path (fill_struct_file_info_message fi)) n in
      elim answer [
        | none ↦ (record failed { info = fi }, (c, n'))
        | some a ↦ (
          record ok_reply { res = get_int a.result; info = fill_fuse_file_info a.info },
          remove_streams dec net path (c, n'),
        )
      ]

  unfoldable pub statfs : FilePath → State FilePath N → Reply × State FilePath N
  statfs path =
      unary dec net (Call.statfs path) failed
        (λ a. record ok_reply { vfs = fill_struct_statvfs a.vfs; res = get_int a.result })

  unfoldable pub flush : FilePath → FileInfo → State FilePath N → Reply × State FilePath N
  flush path fi =
      unary dec net (Call.flush path (fill_struct_file_info_message fi))
        (record failed { info = fi })
        (λ a. record ok_reply { info = fill_fuse_file_info a.info; res = get_int a.result })

  unfoldable pub fsync : FilePath → ℤ → FileInfo → State FilePath N → Reply × State FilePath N
  fsync path isdatasync fi =
      unary dec net (Call.fsync path (set_int isdatasync) (fill_struct_file_info_message fi))
        (record failed { info = fi })
        (λ a. record ok_reply { info = fill_fuse_file_info a.info; res = get_int a.result })

  unfoldable pub fallocate :
      FilePath → ℕ → ℤ → ℤ → FileInfo → State FilePath N → Reply × State FilePath N
  fallocate path mode offset len fi =
      unary dec net
        (Call.fallocate path (set_i32 mode) (set_i64 offset) (set_i64 len)
          (fill_struct_file_info_message fi))
        (record failed { info = fi })
        (λ a. record ok_reply { info = fill_fuse_file_info a.info; res = get_int a.result })

  unfoldable pub setxattr :
      FilePath → List ℕ → List ℕ → ℕ → State FilePath N → Reply × State FilePath N
  setxattr path name value flags =
      unary dec net (Call.setxattr path name (set_u64 (length value)) (set_i32 flags) value) failed
        (λ a. record ok_reply { res = get_int a.result })

  unfoldable pub getxattr : FilePath → List ℕ → ℕ → State FilePath N → Reply × State FilePath N
  getxattr path name size =
      unary dec net (Call.getxattr path name (set_u64 size)) failed
        (λ a. record ok_reply { buf = copied (get_int a.result) a.buf; res = get_int a.result })

  unfoldable pub listxattr : FilePath → ℕ → State FilePath N → Reply × State FilePath N
  listxattr path size =
      unary dec net (Call.listxattr path (set_u64 size)) failed
        (λ a. record ok_reply { buf = copied (get_int a.result) a.buf; res = get_int a.result })

  unfoldable pub removexattr : FilePath → List ℕ → State FilePath N → Reply × State FilePath N
  removexattr path name =
      unary dec net (Call.removexattr path name) failed
        (λ a. record ok_reply { res = get_int a.result })
