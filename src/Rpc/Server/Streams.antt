-- ===== src/Rpc/Server/Streams.antt =====
-- The streams of the server (lib/fuse_rpc/grpc/server.cpp): the classes stream_read_data, stream_write_data
-- and ac_stream_write_data as state machines that the completion queue drives.
use rsafe_fs.Base.{
  ℕ, List, [], ◌∷◌, ◌++◌, take, drop, length, Bool, if◌then◌else◌, Option, none, some,
}
use rsafe_fs.Fuse.{Request, Layer}
use rsafe_fs.Messages.{
  Uint64, Int64, StructFuseFileInfo, get_u64, set_int, get_i64, fill_fuse_file_info,
  fill_struct_file_info_message,
}
use rsafe_fs.Rpc.Answers.{Call, Answer, empty_answer, resized}

-- `call_status`
pub data Status : Type 0 where
  create : Status
  reading : Status
  writing : Status
  finished : Status

-- What a class of calls asks for when it proceeds: a new object for the next call, a read of the next
-- request, a write of a reply, or the end of the call with its status and, where it has one, its reply.
pub data Action : Type 0 where
  new_call : Action
  read_next : Action
  write_reply : Answer → Action
  finish : Action
  finish_reply : Answer → Action

-- The buffer of a stream's reply is resized and keeps what the previous request left behind the bytes
-- that the operation puts there.
unfoldable pub overwritten : ℕ → List ℕ → List ℕ → List ℕ
overwritten size old bytes = bytes ++ drop (length bytes) (resized size old)

module _ {FilePath S : Type 0} (operations : Layer FilePath S) where
  -- The request of a stream of reads, answered in the reply of the one before.
  unfoldable pub read_reply :
      Answer → FilePath → Uint64 → Int64 → StructFuseFileInfo → S → Answer × S
  read_reply old path size offset fi s =
      let (r, s') =
        operations (Request.read path (get_u64 size) (get_i64 offset) (fill_fuse_file_info fi)) s in
      (
        record old {
          buf = overwritten (get_u64 size) old.buf r.buf;
          info = fill_struct_file_info_message r.info;
          result = set_int r.res;
        },
        s',
      )

  unfoldable pub write_reply_to :
      Answer → FilePath → Uint64 → Int64 → List ℕ → StructFuseFileInfo → S → Answer × S
  write_reply_to old path size offset buf fi s =
      let (r, s') =
        operations
          (Request.write path (take (get_u64 size) buf) (get_i64 offset) (fill_fuse_file_info fi))
          s in
      (record old { info = fill_struct_file_info_message r.info; result = set_int r.res }, s')

  -- What a stream answers to a request of its kind; it gets no others.
  unfoldable pub answer : Answer → Call FilePath → S → Answer × S
  answer old (Call.read path size offset fi) s = read_reply old path size offset fi s
  answer old (Call.write path size offset buf fi) s = write_reply_to old path size offset buf fi s
  answer old request s = (old, s)

  -- `proceed` of stream_read_data and of stream_write_data: `request` is what the last read left,
  -- `reply` the object's; `none` is the deleted object.
  unfoldable pub proceed :
      Bool → Call FilePath → Status → Answer → S → List Action × Option (Status × Answer) × S
  proceed ok request Status.create reply s = (new_call ∷ read_next ∷ [], some (reading, reply), s)
  proceed ok request Status.reading reply s =
      let (a, s') = answer reply request s in
      if ok
      then (write_reply a ∷ [], some (writing, a), s')
      else (finish ∷ [], some (finished, reply), s)
  proceed ok request Status.writing reply s = (read_next ∷ [], some (reading, reply), s)
  proceed ok request Status.finished reply s = ([], none, s)

  -- `proceed` of ac_stream_write_data: the result of the write is looked at and dropped.
  unfoldable pub ac_proceed : Bool → Call FilePath → Status → S → List Action × Option Status × S
  ac_proceed ok request Status.create s = (new_call ∷ read_next ∷ [], some reading, s)
  ac_proceed ok request Status.reading s =
      let (a, s') = answer empty_answer request s in
      if ok
      then (read_next ∷ [], some reading, s')
      else (finish_reply empty_answer ∷ [], some finished, s)
  ac_proceed ok request status s = ([], none, s)
