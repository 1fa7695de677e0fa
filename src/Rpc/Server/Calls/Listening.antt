-- ===== src/Rpc/Server/Calls/Listening.antt =====
-- The server never stops to listen.
use rsafe_fs.Base.{
  ℕ, zero, suc, ◌+◌, ◌*◌, max, ◌≡◌, refl, ◌∙◌, ap, arith, List, [], ◌∷◌, ◌++◌, replicate, Bool,
  true, false, none, some, if◌then◌else◌,
}
use rsafe_fs.Fuse.{Layer}
use rsafe_fs.Rpc.Answers.{Call}
use rsafe_fs.Rpc.Server.Streams.{Status, proceed, ac_proceed}
use rsafe_fs.Rpc.Server.Calls.{
  UnaryStatus, Object, registered, unary_proceed, object_proceed, added, handle_tag,
  handle_async_requests, made,
}

-- The objects that are registered for a call that has not come.
abbrev pub is_waiting : Object → Bool
is_waiting (Object.unary_call_data UnaryStatus.processing) = true
is_waiting (Object.bidi_stream_call_data Status.create a) = true
is_waiting (Object.ac_stream_write_data Status.create) = true
is_waiting o = false

unfoldable pub waiting : List Object → ℕ
waiting [] = 0
waiting (o ∷ os) = let n = waiting os in if is_waiting o then suc n else n

waiting-append : (os ps : List Object) → waiting (os ++ ps) ≡ waiting os + waiting ps
unfolding waiting
waiting-append [] ps = omega arith
waiting-append (o ∷ os) ps = ground (arith, waiting-append os ps)

waiting-replicate : (n : ℕ) (o : Object) → waiting (replicate n (registered o)) ≡ n
unfolding waiting registered
waiting-replicate zero o = refl
waiting-replicate (suc n) (Object.unary_call_data st) =
    ap suc (waiting-replicate n (Object.unary_call_data st))
waiting-replicate (suc n) (Object.bidi_stream_call_data st a) =
    ap suc (waiting-replicate n (Object.bidi_stream_call_data st a))
waiting-replicate (suc n) (Object.ac_stream_write_data st) =
    ap suc (waiting-replicate n (Object.ac_stream_write_data st))

module _ {FilePath S : Type 0} (operations : Layer FilePath S) where
  -- What an object leaves behind it and what it adds wait together as it did.
  proceed-waiting :
      (ok : Bool) (q : Call FilePath) (o : Object) (os : List Object) (s : S)
      → let (actions, next, s') = object_proceed operations ok q o s in
        waiting (elim next [ none ↦ os | some o' ↦ o' ∷ os ] ++ added operations o actions)
        ≡ waiting (o ∷ os)
  unfolding waiting object_proceed unary_proceed proceed ac_proceed added registered
  proceed-waiting ok q (Object.unary_call_data UnaryStatus.processing) os s =
      grind (arith, waiting-append)
  proceed-waiting ok q (Object.unary_call_data UnaryStatus.done) os s =
      grind (arith, waiting-append)
  proceed-waiting ok q (Object.bidi_stream_call_data Status.create a) os s =
      grind (arith, waiting-append)
  proceed-waiting true q (Object.bidi_stream_call_data Status.reading a) os s =
      grind (arith, waiting-append)
  proceed-waiting false q (Object.bidi_stream_call_data Status.reading a) os s =
      grind (arith, waiting-append)
  proceed-waiting ok q (Object.bidi_stream_call_data Status.writing a) os s =
      grind (arith, waiting-append)
  proceed-waiting ok q (Object.bidi_stream_call_data Status.finished a) os s =
      grind (arith, waiting-append)
  proceed-waiting ok q (Object.ac_stream_write_data Status.create) os s =
      grind (arith, waiting-append)
  proceed-waiting true q (Object.ac_stream_write_data Status.reading) os s =
      grind (arith, waiting-append)
  proceed-waiting false q (Object.ac_stream_write_data Status.reading) os s =
      grind (arith, waiting-append)
  proceed-waiting ok q (Object.ac_stream_write_data Status.writing) os s =
      grind (arith, waiting-append)
  proceed-waiting ok q (Object.ac_stream_write_data Status.finished) os s =
      grind (arith, waiting-append)

  handle_tag-waiting :
      (i : ℕ) (ok : Bool) (q : Call FilePath) (pool : List Object) (s : S)
      → waiting (handle_tag operations i ok q pool s).0 ≡ waiting pool
  unfolding handle_tag waiting
  handle_tag-waiting i ok q [] s = refl
  handle_tag-waiting zero ok q (o ∷ os) s = proceed-waiting ok q o os s
  handle_tag-waiting (suc i) ok q (o ∷ os) s =
      ap (λ n. if is_waiting o then suc n else n) (handle_tag-waiting i ok q os s)

  handle_async_requests-waiting :
      (tags : List (ℕ × Bool × Call FilePath)) (pool : List Object) (s : S)
      → waiting (handle_async_requests operations tags pool s).0 ≡ waiting pool
  unfolding handle_async_requests
  handle_async_requests-waiting [] pool s = refl
  handle_async_requests-waiting ((i, ok, q) ∷ tags) pool s =
      let (pool', s') = handle_tag operations i ok q pool s in
      handle_async_requests-waiting tags pool' s' ∙ handle_tag-waiting i ok q pool s

  -- Whatever calls come, however their steps interleave and whichever of them fail, as many objects
  -- of each method wait for a further call as the server made at the start: twenty for each queue.
  pub handle_async_requests-listening :
      (n_queues : ℕ) (o : Object) (tags : List (ℕ × Bool × Call FilePath)) (s : S)
      → waiting (handle_async_requests operations tags (made n_queues o) s).0 ≡ max 1 n_queues * 20
  unfolding made
  handle_async_requests-listening n_queues o tags s =
      handle_async_requests-waiting tags (made n_queues o) s
      ∙ waiting-replicate (max 1 n_queues * 20) o
