-- ===== src/Rpc/Server/Calls/Ends.antt =====
-- A stream of the server from the call to its end (lib/fuse_rpc/grpc/server.cpp, the `proceed` of the
-- streams): the queue gives each read the client's next request, and `ok = false` after the last.
use rsafe_fs.Base.{
  ℕ, zero, suc, ◌+◌, ◌*◌, ◌≤◌, ◌≡◌, refl, arith, List, [], ◌∷◌, ◌++◌, length, replicate, Bool, true,
  false, Option, none, some,
}
use rsafe_fs.Fuse.{Layer}
use rsafe_fs.Rpc.Answers.{Call, Answer, empty_answer}
use rsafe_fs.Rpc.Server.Streams.{
  Status, Action, new_call, read_next, write_reply, finish, finish_reply, answer, proceed,
  ac_proceed,
}

-- A stream's actions behind its first read: for each answer, its write and the next read.
unfoldable pub exchanges : List Answer → List Action
exchanges [] = finish ∷ []
exchanges (a ∷ rest) = write_reply a ∷ read_next ∷ exchanges rest

module _ {FilePath S : Type 0} (operations : Layer FilePath S) where
  -- What completes next: a read takes a request if there is one; `last` is what `request_` holds.
  abbrev completed :
      Status → Call FilePath → List (Call FilePath) → Bool × Call FilePath × List (Call FilePath)
  completed Status.reading last [] = (false, last, [])
  completed Status.reading last (q ∷ qs) = (true, q, qs)
  completed st last qs = (true, last, qs)

  -- The steps of an object until it is deleted: what it asked for, and the state that it left.
  unfoldable pub run_stream :
      ℕ → Call FilePath → List (Call FilePath) → Status → Answer → S → Option (List Action × S)
  run_stream zero last qs st reply s = none
  run_stream (suc fuel) last qs st reply s =
      let (ok, request, rest) = completed st last qs in
      let (actions, next, s') = proceed operations ok request st reply s in
      elim next [
        | none ↦ some (actions, s')
        | some (st', reply') ↦ elim (run_stream fuel request rest st' reply' s') [
          | none ↦ none
          | some (more, end) ↦ some (actions ++ more, end)
        ]
      ]

  unfoldable pub run_ac_stream :
      ℕ → Call FilePath → List (Call FilePath) → Status → S → Option (List Action × S)
  run_ac_stream zero last qs st s = none
  run_ac_stream (suc fuel) last qs st s =
      let (ok, request, rest) = completed st last qs in
      let (actions, next, s') = ac_proceed operations ok request st s in
      elim next [
        | none ↦ some (actions, s')
        | some st' ↦ elim (run_ac_stream fuel request rest st' s') [
          | none ↦ none
          | some (more, end) ↦ some (actions ++ more, end)
        ]
      ]

  -- The requests carried out in order, each answered in the reply of the one before.
  unfoldable pub answers : Answer → List (Call FilePath) → S → List Answer × S
  answers old [] s = ([], s)
  answers old (q ∷ qs) s =
      let (a, s') = answer operations old q s in
      let (rest, end) = answers a qs s' in (a ∷ rest, end)

  -- the requests of a stream without replies carried out in order
  unfoldable pub carried_out : List (Call FilePath) → S → S
  carried_out [] s = s
  carried_out (q ∷ qs) s = carried_out qs (answer operations empty_answer q s).1

  reading_lem :
      (fuel : ℕ) (last : Call FilePath) (qs : List (Call FilePath)) (reply : Answer) (s : S)
      → length qs * 2 + 2 ≤ fuel
      → let (replies, end) = answers reply qs s in
        run_stream fuel last qs Status.reading reply s ≡ some (exchanges replies, end)
  unfolding run_stream answers proceed exchanges
  reading_lem zero last qs reply s h = absurd (omega arith)
  reading_lem (suc zero) last qs reply s h = absurd (omega arith)
  reading_lem (suc (suc fuel)) last [] reply s h = refl
  reading_lem (suc (suc fuel)) last (q ∷ qs) reply s h =
      let (a, s') = answer operations reply q s in
      rw (reading_lem fuel q qs a s' (omega arith)) refl

  -- A stream of reads or writes whose client ends it comes to its end, within two steps for each
  -- request and three more: it has put one new object in its place, carried out every request in
  -- order, sent its answer before it reads the next one, and finished the call once, at the end.
  pub run_stream_lem :
      (fuel : ℕ) (last : Call FilePath) (qs : List (Call FilePath)) (s : S)
      → length qs * 2 + 3 ≤ fuel
      → let (replies, end) = answers empty_answer qs s in
        run_stream fuel last qs Status.create empty_answer s
        ≡ some (new_call ∷ read_next ∷ exchanges replies, end)
  unfolding run_stream proceed
  run_stream_lem zero last qs s h = absurd (omega arith)
  run_stream_lem (suc fuel) last qs s h =
      rw (reading_lem fuel last qs empty_answer s (omega arith)) refl

  ac_reading_lem :
      (fuel : ℕ) (last : Call FilePath) (qs : List (Call FilePath)) (s : S)
      → length qs + 2 ≤ fuel
      → run_ac_stream fuel last qs Status.reading s
        ≡ some
            (replicate (length qs) read_next ++ (finish_reply empty_answer ∷ []), carried_out qs s)
  unfolding run_ac_stream carried_out ac_proceed
  ac_reading_lem zero last qs s h = absurd (omega arith)
  ac_reading_lem (suc zero) last qs s h = absurd (omega arith)
  ac_reading_lem (suc (suc fuel)) last [] s h = refl
  ac_reading_lem (suc fuel) last (q ∷ qs) s h =
      rw (ac_reading_lem fuel q qs (answer operations empty_answer q s).1 (omega arith)) refl

  -- A stream of an asynchronous client comes to its end, within a step for each request and three
  -- more: it has carried out every write in order, and its only reply, with the status OK, is an
  -- empty one, whatever the results of the writes were.
  pub run_ac_stream_lem :
      (fuel : ℕ) (last : Call FilePath) (qs : List (Call FilePath)) (s : S)
      → length qs + 3 ≤ fuel
      → run_ac_stream fuel last qs Status.create s
        ≡ some (
          new_call
              ∷ read_next
              ∷ (replicate (length qs) read_next ++ (finish_reply empty_answer ∷ [])),
          carried_out qs s,
        )
  unfolding run_ac_stream ac_proceed
  run_ac_stream_lem zero last qs s h = absurd (omega arith)
  run_ac_stream_lem (suc fuel) last qs s h = rw (ac_reading_lem fuel last qs s (omega arith)) refl
