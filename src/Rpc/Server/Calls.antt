-- ===== src/Rpc/Server/Calls.antt =====
-- The objects of the server's calls (lib/fuse_rpc/grpc/server.cpp, include/rsafefs/fuse_rpc/grpc/server.hpp)
-- and the pool of them that waits for the calls of one method: what `run` makes, and what a poller does
-- with a tag of the completion queue.
pub mod Listening
pub mod Ends
use rsafe_fs.Base.{
  ℕ, zero, suc, ◌+◌, ◌*◌, max, List, [], ◌∷◌, ◌++◌, replicate, Bool, true, false, Option, none,
  some, if◌then◌else◌,
}
use rsafe_fs.Fuse.{Layer}
use rsafe_fs.Rpc.Answers.{Call, Answer, empty_answer}
use rsafe_fs.Rpc.Server.{serve}
use rsafe_fs.Rpc.Server.Streams.{
  Status, create, reading, writing, finished, Action, new_call, finish_reply, proceed, ac_proceed,
}

-- `call_status` of a unary call
pub data UnaryStatus : Type 0 where
  processing : UnaryStatus
  done : UnaryStatus

-- an object of a class of unary calls, of one of the two classes of streams with replies, or of the
-- class of streams without
pub data Object : Type 0 where
  unary_call_data : UnaryStatus → Object
  bidi_stream_call_data : Status → Answer → Object
  ac_stream_write_data : Status → Object

-- The object as its constructor leaves it, registered for the next call of its method.
unfoldable pub registered : Object → Object
registered (Object.unary_call_data st) = unary_call_data processing
registered (Object.bidi_stream_call_data st a) = bidi_stream_call_data create empty_answer
registered (Object.ac_stream_write_data st) = ac_stream_write_data create

module _ {FilePath S : Type 0} (operations : Layer FilePath S) where
  -- `proceed` of a class of unary calls
  unfoldable pub unary_proceed :
      Call FilePath → UnaryStatus → S → List Action × Option UnaryStatus × S
  unary_proceed request UnaryStatus.processing s =
      let (a, s') = serve operations request s in (new_call ∷ finish_reply a ∷ [], some done, s')
  unary_proceed request UnaryStatus.done s = ([], none, s)

  unfoldable pub object_proceed :
      Bool → Call FilePath → Object → S → List Action × Option Object × S
  object_proceed ok request (Object.unary_call_data st) s =
      let (actions, next, s') = unary_proceed request st s in
      (actions, elim next [ none ↦ none | some st' ↦ some (unary_call_data st') ], s')
  object_proceed ok request (Object.bidi_stream_call_data st reply) s =
      let (actions, next, s') = proceed operations ok request st reply s in
      (
        actions,
        elim next [ none ↦ none | some (st', reply') ↦ some (bidi_stream_call_data st' reply') ],
        s',
      )
  object_proceed ok request (Object.ac_stream_write_data st) s =
      let (actions, next, s') = ac_proceed operations ok request st s in
      (actions, elim next [ none ↦ none | some st' ↦ some (ac_stream_write_data st') ], s')

  -- The objects that `new` adds: as many as the actions ask for.
  unfoldable pub added : Object → List Action → List Object
  added o [] = []
  added o (Action.new_call ∷ rest) = registered o ∷ added o rest
  added o (a ∷ rest) = added o rest

  -- A poller takes the tag of the object at a position, with `ok` and the request that the queue has
  -- filled in, and lets the object proceed; a deleted object leaves the pool.
  unfoldable pub handle_tag : ℕ → Bool → Call FilePath → List Object → S → List Object × S
  handle_tag i ok request [] s = ([], s)
  handle_tag zero ok request (o ∷ os) s =
      let (actions, next, s') = object_proceed ok request o s in
      (elim next [ none ↦ os | some o' ↦ o' ∷ os ] ++ added o actions, s')
  handle_tag (suc i) ok request (o ∷ os) s =
      let (os', s') = handle_tag i ok request os s in (o ∷ os', s')

  unfoldable pub handle_async_requests :
      List (ℕ × Bool × Call FilePath) → List Object → S → List Object × S
  handle_async_requests [] pool s = (pool, s)
  handle_async_requests ((i, ok, request) ∷ tags) pool s =
      let (pool', s') = handle_tag i ok request pool s in handle_async_requests tags pool' s'

-- The objects of one method that `run` makes: twenty for each queue, of which there is at least one.
unfoldable pub made : ℕ → Object → List Object
made n_queues o = replicate (max 1 n_queues * 20) (registered o)
