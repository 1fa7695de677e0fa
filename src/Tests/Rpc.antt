-- ===== src/Tests/Rpc.antt =====
-- A session over a network that answers, with a server that counts its writes.
use rsafe_fs.Base.{
  Option-cases, sym, ap, ◌^◌, ◌<◌, ℕ, ◌+◌, ◌*◌, ◌≡◌, refl, inl, inr, arith, ite, max, ℕ_discrete,
  pos, List, [], ◌∷◌, Bool, true, false, not, ◌&&◌, ◌||◌, Option, none, some, is_some,
}
use rsafe_fs.Fuse.{
  FileInfo, Request, Layer, ok_reply, zero_info, zero_stat, zero_statvfs, zero_time,
}
use rsafe_fs.Messages.{fill_struct_file_info_message}
use rsafe_fs.Messages.Roundtrip.{FileInfoFits, StatFits, TimespecFits, StatvfsFits}
use rsafe_fs.Rpc.Answers.{Call, Kind, Network, empty_answer}
use rsafe_fs.Rpc.Server
use rsafe_fs.Rpc.Server.Streams
use rsafe_fs.Rpc.Server.Streams.{Status, new_call, read_next, finish_reply}
use rsafe_fs.Rpc.Server.Calls.{Object, UnaryStatus, handle_async_requests, made}
use rsafe_fs.Rpc.Server.Calls.Listening.{waiting, handle_async_requests-listening}
use rsafe_fs.Rpc.Server.Calls.Ends.{
  run_stream, run_ac_stream, answers, carried_out, exchanges, run_stream_lem, run_ac_stream_lem,
}
use rsafe_fs.Rpc.Client.{no_streams, is_minus_one}
use rsafe_fs.Rpc.Client.Files.{open_file, release}
use rsafe_fs.Rpc.Client.Session.{handle}
use rsafe_fs.Rpc.Client.Streams.{has_stream, needs, open_file-streams, release-streams}
use rsafe_fs.Base.Dict.{member}
use rsafe_fs.Rpc.Requests.{message}
use rsafe_fs.Rpc.Observed.{sent, ReplyFits, Fitting}
use rsafe_fs.Rpc.Transparent.{Delivers, Outcome}
use rsafe_fs.Rpc.Transparent.Calls.{handle-Outcome}
use rsafe_fs.Rpc.Transparent.Runs.{Reliable, run_client, run_direct, run_client-direct}

-- The server's state counts the writes; a read gives the count as a byte.
abbrev counter : Layer ℕ ℕ
counter (Request.write path buf offset fi) s = (record ok_reply { res = pos 1; info = fi }, s + 1)
counter (Request.read path size offset fi) s =
    (record ok_reply { res = pos 1; buf = s ∷ []; info = fi }, s)
counter request s = (ok_reply, s)

-- The network holds the request that was last sent over a stream.
abbrev wire : Network ℕ (ℕ × Option (Call ℕ))
wire = record {
  unary = λ q n. (some (Server.serve counter q n.0).0, ((Server.serve counter q n.0).1, n.1));
  begin_stream = λ k p n. n;
  stream_write = λ k p q n. (true, (n.0, some q));
  stream_read = λ k p n. elim n.1 [
    | none ↦ (some empty_answer, n)
    | some q ↦ (
      some (Streams.answer counter empty_answer q n.0).0,
      ((Streams.answer counter empty_answer q n.0).1, none),
    )
  ];
  writes_done = λ k p n. n;
}

abbrev count : ℕ × Option (Call ℕ) → ℕ
count n = n.0

wire-Delivers : Delivers counter wire count
wire-Delivers = record {
  unary_ok = λ q n a e.
      let h : (Server.serve counter q n.0).0 ≡ a = cc in
      ap (λ x. (x, (Server.serve counter q n.0).1)) (sym h);
  unary_lost = λ q n e. cc;
  stream_unsent = λ k p q n e. cc;
  stream_ok = λ k p q n a e f.
      let h : (Streams.answer counter empty_answer q n.0).0 ≡ a = cc in
      (empty_answer, ap (λ x. (x, (Streams.answer counter empty_answer q n.0).1)) (sym h));
  stream_lost = λ k p q n e f. cc;
  begin_view = λ k p n. refl;
  done_view = λ k p n. refl;
}

wire-Reliable : Reliable wire
wire-Reliable = record {
  unary_answers = λ q m e. cc;
  stream_sends = λ k p q m e. cc;
  stream_answers = λ k p m e. elim (Option-cases m.1) [ inl miss ↦ cc | inr (q, hit) ↦ cc ];
}

zero_time-Fits : TimespecFits zero_time
zero_time-Fits = record { sec_fits = omega arith; nsec_fits = omega arith }

zero_stat-Fits : StatFits zero_stat
zero_stat-Fits = record {
  dev_fits = omega arith;
  ino_fits = omega arith;
  mode_fits = omega arith;
  nlink_fits = omega arith;
  uid_fits = omega arith;
  gid_fits = omega arith;
  rdev_fits = omega arith;
  size_fits = omega arith;
  blksize_fits = omega arith;
  blocks_fits = omega arith;
  atim_fits = zero_time-Fits;
  mtim_fits = zero_time-Fits;
  ctim_fits = zero_time-Fits;
}

zero_statvfs-Fits : StatvfsFits zero_statvfs
zero_statvfs-Fits = record {
  bsize_fits = omega arith;
  frsize_fits = omega arith;
  blocks_fits = omega arith;
  bfree_fits = omega arith;
  bavail_fits = omega arith;
  files_fits = omega arith;
  ffree_fits = omega arith;
  favail_fits = omega arith;
  fsid_fits = omega arith;
  flag_fits = omega arith;
  namemax_fits = omega arith;
}

-- a handle that was opened for reading and writing
abbrev both : FileInfo
both = record zero_info { flags = 2 }

marked-Fits :
    (f b : ℕ) → f < 2 ^ 31 → b < 2 ^ 32 → FileInfoFits (record zero_info { flags = f; flush = b })
marked-Fits f b hf hb = record {
  flags_fits = hf;
  fh_old_fits = omega arith;
  writepage_fits = omega arith;
  direct_io_fits = omega arith;
  keep_cache_fits = omega arith;
  flush_fits = hb;
  nonseekable_fits = omega arith;
  flock_release_fits = omega arith;
  padding_fits = omega arith;
  fh_fits = omega arith;
  lock_owner_fits = omega arith;
}

reply-Fits :
    (n b : ℕ) (bytes : List ℕ)
    → n < 2 ^ 31
    → b < 2 ^ 32
    → ReplyFits (record ok_reply { res = pos n; buf = bytes; info = record both { flush = b } })
reply-Fits n b bytes hn hb = record {
  res_fits = hn;
  stbuf_fits = zero_stat-Fits;
  info_fits = marked-Fits 2 b (omega arith) hb;
  vfs_fits = zero_statvfs-Fits;
  entries_fits = tt;
}

ok_reply-Fits : ReplyFits ok_reply
ok_reply-Fits = record {
  res_fits = omega arith;
  stbuf_fits = zero_stat-Fits;
  info_fits = marked-Fits 0 0 (omega arith) (omega arith);
  vfs_fits = zero_statvfs-Fits;
  entries_fits = tt;
}

abbrev a_read : Request ℕ
a_read = Request.read 1 4 (pos 0) both

abbrev a_write : Request ℕ
a_write = Request.write 1 (5 ∷ []) (pos 0) both

a_read-Fitting : Fitting counter a_read
unfolding sent
a_read-Fitting s = (reply-Fits 1 0 (s ∷ []) (omega arith) (omega arith), (refl, omega arith))

a_write-Fitting : Fitting counter a_write
unfolding sent
a_write-Fitting s = (reply-Fits 1 1 [] (omega arith) (omega arith), tt)

open-Fitting : Fitting counter (Request.open_file 1 both)
unfolding sent
open-Fitting s = (ok_reply-Fits, tt)

release-Fitting : Fitting counter (Request.release 1 both)
unfolding sent
release-Fitting s = (ok_reply-Fits, tt)

both-Fits : FileInfoFits both
both-Fits = marked-Fits 2 0 (omega arith) (omega arith)

handle-Outcome_example :
    let (reply, (c, n)) =
      handle ℕ_discrete wire a_read
        (record { read_streams = 1 ∷ []; write_streams = [] }, (7, none)) in
    Outcome counter wire count a_read 7 reply (count n)
handle-Outcome_example =
    handle-Outcome counter wire count wire-Delivers ℕ_discrete a_read
      (record { read_streams = 1 ∷ []; write_streams = [] }) (7, none)
      (omega arith, omega arith, both-Fits) a_read-Fitting

abbrev session : List (Request ℕ)
session = Request.open_file 1 both ∷ a_write ∷ a_read ∷ Request.release 1 both ∷ []

run_client-direct_example :
    let (replies, (c, n)) = run_client ℕ_discrete wire session (no_streams, (7, none)) in
    (replies, count n) ≡ run_direct counter session 7
run_client-direct_example =
    let transfer : (n : ℕ) → n < 2 ^ 64 → (n < 2 ^ 64) × (0 < 2 ^ 63) × FileInfoFits both =
      λ n h. (h, omega arith, both-Fits) in
    run_client-direct counter wire count wire-Delivers wire-Reliable ℕ_discrete session no_streams
      (7, none) (both-Fits, (transfer 1 (omega arith), (transfer 4 (omega arith), (both-Fits, tt))))
      (open-Fitting, (a_write-Fitting, (a_read-Fitting, (release-Fitting, tt))))

-- the calls of a method: one arrives, is answered and is deleted
abbrev tags : List (ℕ × Bool × Call ℕ)
tags = (0, true, Call.getattr 1) ∷ (0, true, Call.getattr 1) ∷ []

handle_async_requests-listening_example :
    waiting
      (handle_async_requests counter tags
        (made 0 (Object.unary_call_data UnaryStatus.processing))
        7).0
    ≡ max 1 0 * 20
handle_async_requests-listening_example =
    handle_async_requests-listening counter 0 (Object.unary_call_data UnaryStatus.processing) tags 7

abbrev writes : List (Call ℕ)
writes = message a_write ∷ message a_write ∷ []

run_stream_lem_example :
    let (replies, end) = answers counter empty_answer writes 7 in
    run_stream counter 7 (Call.getattr 0) writes Status.create empty_answer 7
    ≡ some (new_call ∷ read_next ∷ exchanges replies, end)
run_stream_lem_example = run_stream_lem counter 7 (Call.getattr 0) writes 7 (omega arith)

run_ac_stream_lem_example :
    run_ac_stream counter 5 (Call.getattr 0) writes Status.create 7
    ≡ some (
      new_call ∷ read_next ∷ read_next ∷ read_next ∷ finish_reply empty_answer ∷ [],
      carried_out counter writes 7,
    )
run_ac_stream_lem_example = run_ac_stream_lem counter 5 (Call.getattr 0) writes 7 (omega arith)

open_file-streams_example :
    let (reply, (c, n)) = open_file ℕ_discrete wire 1 both (no_streams, (7, none)) in
    has_stream ℕ_discrete wire Kind.writing 1 c
    ≡ ite
        (ℕ_discrete 1 1)
        ((not (is_minus_one reply.res) && needs ℕ_discrete wire Kind.writing 2) || false)
        false
unfolding member
open_file-streams_example =
    open_file-streams ℕ_discrete wire Kind.writing 1 1 both no_streams (7, none)

release-streams_example :
    let (answer, _) = wire.unary (Call.release 1 (fill_struct_file_info_message both)) (7, none) in
    let (reply, (c, n)) =
      release ℕ_discrete wire 1 both
        (record { read_streams = 1 ∷ 2 ∷ []; write_streams = [] }, (7, none)) in
    has_stream ℕ_discrete wire Kind.reading 1 c
    ≡ ite (ℕ_discrete 1 1) (not (is_some answer) && true) true
unfolding member ℕ_discrete
release-streams_example =
    release-streams ℕ_discrete wire Kind.reading 1 1 both
      (record { read_streams = 1 ∷ 2 ∷ []; write_streams = [] }) (7, none)
