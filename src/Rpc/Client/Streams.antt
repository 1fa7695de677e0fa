-- ===== src/Rpc/Client/Streams.antt =====
-- Which streams the client keeps (`create_streams` and `remove_streams` of
-- lib/fuse_rpc/grpc/sync_client.cpp).
use rsafe_fs.Base.{
  not, ◌&&◌, is_some, Option-cases, ℕ, ◌%◌, ◌==◌, ◌≡◌, arith, ite, List, [], ◌∷◌, Bool, true, false,
  ◌||◌, Bool-cases, inl, inr,
}
use rsafe_fs.Base.Dict.{member, delete}
use rsafe_fs.Fuse.{FileInfo}
use rsafe_fs.Messages.{fill_struct_file_info_message}
use rsafe_fs.Rpc.Answers.{Call, Kind, Network}
use rsafe_fs.Rpc.Client.{
  SyncClient, emplace_stream, create_streams, remove_stream, remove_streams, is_minus_one,
}
use rsafe_fs.Rpc.Client.Files.{open_file, opened, release}

module _ {FilePath N : Type 0} (dec : Discrete FilePath) (net : Network FilePath N) where
  member-delete :
      (q k : FilePath) (l : List FilePath)
      → member dec q (delete dec k l) ≡ ite (dec k q) false (member dec q l)
  unfolding member delete
  member-delete q k [] = ground arith
  member-delete q k (x ∷ l) = ground (arith, member-delete q k l)

  -- Deleting a path that is not there changes no membership.
  without :
      (q k : FilePath) (l : List FilePath)
      → member dec k l ≡ false
      → member dec q l ≡ ite (dec k q) false (member dec q l)
  without q k l h = ground (arith, h)

  -- the streams of a path, by kind
  abbrev pub has_stream : Kind → FilePath → SyncClient FilePath → Bool
  has_stream Kind.reading q c = member dec q c.read_streams
  has_stream Kind.writing q c = member dec q c.write_streams

  remove_streams_lem :
      (j : Kind) (p q : FilePath) (c : SyncClient FilePath) (n : N)
      → has_stream j q (remove_streams dec net p (c, n)).0 ≡ ite (dec p q) false (has_stream j q c)
  unfolding remove_streams remove_stream
  remove_streams_lem Kind.reading p q c n = ground (
    arith,
    member-delete q p c.read_streams,
    Bool-cases (member dec p c.read_streams),
    without q p c.read_streams,
  )
  remove_streams_lem Kind.writing p q c n = ground (
    arith,
    member-delete q p c.write_streams,
    Bool-cases (member dec p c.write_streams),
    without q p c.write_streams,
  )

  -- The access modes that need a stream of a kind.
  abbrev pub needs : Kind → ℕ → Bool
  needs Kind.reading flags = (flags % 4 == 0) || (flags % 4 == 2)
  needs Kind.writing flags = (flags % 4 == 1) || (flags % 4 == 2)

  -- A path that is there already is found.
  found :
      (q p : FilePath) (l : List FilePath)
      → member dec p l ≡ true
      → member dec q l ≡ ite (dec p q) true (member dec q l)
  found q p l h = ground (arith, h)

  create_streams_lem :
      (j : Kind) (p q : FilePath) (flags : ℕ) (c : SyncClient FilePath) (n : N)
      → has_stream j q (create_streams dec net p flags (c, n)).0
        ≡ ite (dec p q) (needs j flags || has_stream j q c) (has_stream j q c)
  unfolding create_streams emplace_stream member
  create_streams_lem Kind.reading p q flags c n =
      ground (arith, found q p c.read_streams, Bool-cases (member dec p c.read_streams))
  create_streams_lem Kind.writing p q flags c n =
      ground (arith, found q p c.write_streams, Bool-cases (member dec p c.write_streams))

  -- After an open, a path has the streams that it had, and, unless the reply is -1, the path opened
  -- has those that its access mode needs: a stream of reads for O_RDONLY, one of writes for O_WRONLY
  -- and both for O_RDWR.
  pub open_file-streams :
      (j : Kind) (path q : FilePath) (fi : FileInfo) (c : SyncClient FilePath) (n : N)
      → let (reply, (c', n')) = open_file dec net path fi (c, n) in
        has_stream j q c'
        ≡ ite
            (dec path q)
            ((not (is_minus_one reply.res) && needs j fi.flags) || has_stream j q c)
            (has_stream j q c)
  unfolding open_file opened is_minus_one
  open_file-streams j path q fi c n =
      let request = Call.open_file path (fill_struct_file_info_message fi) in
      let n' = (net.unary request n).1 in
      elim (Option-cases (net.unary request n).0) [
        | inl miss ↦ rw (open_file, miss) (ground (arith, Bool-cases (has_stream j q c)))
        | inr (a, hit) ↦
            rw (open_file, hit) (ground (arith, create_streams_lem j path q fi.flags c n'))
      ]

  -- After a release, its path has no stream, unless the call failed; the streams of the other paths
  -- are as they were.
  pub release-streams :
      (j : Kind) (path q : FilePath) (fi : FileInfo) (c : SyncClient FilePath) (n : N)
      → let (answer, _) = net.unary (Call.release path (fill_struct_file_info_message fi)) n in
        let (reply, (c', n')) = release dec net path fi (c, n) in
        has_stream j q c'
        ≡ ite (dec path q) (not (is_some answer) && has_stream j q c) (has_stream j q c)
  unfolding release
  release-streams j path q fi c n =
      let request = Call.release path (fill_struct_file_info_message fi) in
      let n' = (net.unary request n).1 in
      elim (Option-cases (net.unary request n).0) [
        | inl miss ↦ rw (release, miss) (ground arith)
        | inr (a, hit) ↦ rw (release, hit) (remove_streams_lem j path q c n')
      ]
