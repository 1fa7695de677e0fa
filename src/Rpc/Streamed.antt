-- ===== src/Rpc/Streamed.antt =====
-- A read and a write over a stream: what the client reads of the answer is the direct reply, whatever the
-- stream's reply held before.
use rsafe_fs.Base.{◌≡◌, refl, ℕ, ℤ, List}
use rsafe_fs.Fuse.{FileInfo, Request, Reply, Layer}
use rsafe_fs.Messages.Roundtrip.{
  get_u64-set_u64, get_i64-set_i64, get_int-set_int, fill_fuse_file_info-message,
}
use rsafe_fs.Rpc.Answers.{Answer}
use rsafe_fs.Rpc.Server.Streams.{answer, read_reply, write_reply_to}
use rsafe_fs.Rpc.Observed.{RequestFits, Fitting, direct, sent, observed}
use rsafe_fs.Rpc.Requests.{message, read_answer}
use rsafe_fs.Rpc.Delivered.Bytes.{copied-overwritten, take_all_length, flushed}

module _ {FilePath S : Type 0} (operations : Layer FilePath S) where
  pub read_streamed :
      (old : Answer) (path : FilePath) (size : ℕ) (offset : ℤ) (fi : FileInfo) (s : S)
      → let request = Request.read path size offset fi in
        RequestFits request
        → Fitting operations request
        → let (a, s') = answer operations old (message request) s in
          (read_answer request a, s') ≡ direct operations request s
  unfolding answer read_reply direct sent observed message read_answer
  read_streamed old path size offset fi s fit ok =
      let r : Reply = (operations (Request.read path size offset fi) s).0 in
      let f = (ok s).0 in
      rw
        (
          get_u64-set_u64 fit.0,
          get_i64-set_i64 offset fit.1,
          fill_fuse_file_info-message fi fit.2,
          get_int-set_int r.res f.res_fits,
          copied-overwritten size r.res old.buf r.buf (ok s).1,
          fill_fuse_file_info-message r.info f.info_fits,
        )
        refl

  pub write_streamed :
      (old : Answer) (path : FilePath) (buf : List ℕ) (offset : ℤ) (fi : FileInfo) (s : S)
      → let request = Request.write path buf offset fi in
        RequestFits request
        → Fitting operations request
        → let (a, s') = answer operations old (message request) s in
          (read_answer request a, s') ≡ direct operations request s
  unfolding answer write_reply_to direct sent observed message read_answer
  write_streamed old path buf offset fi s fit ok =
      let r : Reply = (operations (sent (Request.write path buf offset fi)) s).0 in
      let f = (ok s).0 in
      rw
        (
          get_u64-set_u64 fit.0,
          get_i64-set_i64 offset fit.1,
          fill_fuse_file_info-message (record fi { flush = 1 }) (flushed fi fit.2),
          take_all_length buf,
          get_int-set_int r.res f.res_fits,
          fill_fuse_file_info-message r.info f.info_fits,
        )
        refl
