-- ===== src/Rpc/Transparent.antt =====
-- A call through the synchronous client and the server against the operation called directly.
pub mod Exchange
pub mod Calls
pub mod Runs
use rsafe_fs.Base.{
  ℕ, zero, suc, ◌≤◌, ◌<◌, ◌≡◌, refl, sym, ap, ◌∙◌, ◌⊎◌, inl, inr, arith, Bool, true, false,
  Bool-cases, Option, none, some, Option-cases, List,
}
use rsafe_fs.Base.Dict.{member}
use rsafe_fs.Fuse.{Request, Reply, Layer}
use rsafe_fs.Rpc.Answers.{Call, Answer, Kind, Network}
use rsafe_fs.Rpc.Server
use rsafe_fs.Rpc.Server.Streams
use rsafe_fs.Rpc.Client.{
  SyncClient, State, emplace_stream, create_streams, remove_stream, remove_streams, unary,
}
use rsafe_fs.Rpc.Observed.{RequestFits, Fitting, direct, times, lost, attempts}
use rsafe_fs.Rpc.Requests.{message, read_answer}
use rsafe_fs.Rpc.Delivered.{delivered}

module _ {FilePath N S : Type 0} (operations : Layer FilePath S) (net : Network FilePath N)
    (view : N → S) where
  -- A request that was not answered may have been carried out.
  abbrev pub MaybeServed : Call FilePath → S → S → Type 0
  MaybeServed q s s' = (s' ≡ s) ⊎ (s' ≡ (Server.serve operations q s).1)

  -- What the program relies on between the client and the server's state: an answer is the server's
  -- to the request, which it carried out once; a request that fails was carried out once or not at
  -- all; to begin and to end a stream changes nothing there.
  pub record Delivers : Type 0 where
    pub unary_ok :
        (q : Call FilePath) (n : N) (a : Answer)
        → (net.unary q n).0 ≡ some a
        → (a, view (net.unary q n).1) ≡ Server.serve operations q (view n)
    pub unary_lost :
        (q : Call FilePath) (n : N)
        → (net.unary q n).0 ≡ none
        → MaybeServed q (view n) (view (net.unary q n).1)
    pub stream_unsent :
        (k : Kind) (p : FilePath) (q : Call FilePath) (n : N)
        → (net.stream_write k p q n).0 ≡ false
        → MaybeServed q (view n) (view (net.stream_write k p q n).1)
    pub stream_ok :
        (k : Kind) (p : FilePath) (q : Call FilePath) (n : N) (a : Answer)
        → (net.stream_write k p q n).0 ≡ true
        → (net.stream_read k p (net.stream_write k p q n).1).0 ≡ some a
        → (old : Answer) × ((a, view (net.stream_read k p (net.stream_write k p q n).1).1)
            ≡ Streams.answer operations old q (view n))
    pub stream_lost :
        (k : Kind) (p : FilePath) (q : Call FilePath) (n : N)
        → (net.stream_write k p q n).0 ≡ true
        → (net.stream_read k p (net.stream_write k p q n).1).0 ≡ none
        → MaybeServed q (view n) (view (net.stream_read k p (net.stream_write k p q n).1).1)
    pub begin_view : (k : Kind) (p : FilePath) (n : N) → view (net.begin_stream k p n) ≡ view n
    pub done_view : (k : Kind) (p : FilePath) (n : N) → view (net.writes_done k p n) ≡ view n

  -- The stub fails a call of a request; a stream fails to send one or to answer it.
  abbrev pub UnaryFails : Request FilePath → Type 0
  UnaryFails request = (m : N) × ((net.unary (message request) m).0 ≡ none)

  abbrev pub StreamFails : Type 0
  StreamFails =
      (k : Kind) × (p : FilePath) × (q : Call FilePath) × (m : N) × (((net.stream_write k p q m).0
          ≡ false)
        ⊎ ((net.stream_read k p m).0 ≡ none))

  -- How a call ends: it fails, after the request was carried out at most `attempts` times, or it
  -- gives the direct reply, after at most `attempts - 1` executions whose answer was lost.
  pub data Outcome (request : Request FilePath) (s : S) (reply : Reply) (s' : S) : Type 0 where
    failed :
        (k : ℕ)
        → k ≤ attempts request
        → reply ≡ lost request
        → s' ≡ times operations request k s
        → UnaryFails request
        → Outcome request s reply s'
    answered :
        (k : ℕ)
        → k < attempts request
        → (reply, s') ≡ direct operations request (times operations request k s)
        → (k ≡ 0) ⊎ StreamFails
        → Outcome request s reply s'

  module _ (d : Delivers) (dec : Discrete FilePath) where
    emplace_stream-view :
        (k : Kind) (p : FilePath) (c : SyncClient FilePath) (n : N)
        → view (emplace_stream dec net k p (c, n)).1 ≡ view n
    unfolding emplace_stream
    emplace_stream-view Kind.reading p c n = ground (arith, d.begin_view Kind.reading p n)
    emplace_stream-view Kind.writing p c n = ground (arith, d.begin_view Kind.writing p n)

    pub create_streams-view :
        (p : FilePath) (flags : ℕ) (c : SyncClient FilePath) (n : N)
        → view (create_streams dec net p flags (c, n)).1 ≡ view n
    unfolding create_streams
    create_streams-view p flags c n =
        let (c', n') = emplace_stream dec net Kind.reading p (c, n) in
        let r = emplace_stream-view Kind.reading p c n in
        let w = emplace_stream-view Kind.writing p c n in
        let rw = emplace_stream-view Kind.writing p c' n' in ground (arith, r, w, rw)

    remove_stream-view :
        (k : Kind) (p : FilePath) (c : SyncClient FilePath) (n : N)
        → view (remove_stream dec net k p (c, n)).1 ≡ view n
    unfolding remove_stream
    remove_stream-view Kind.reading p c n = ground (arith, d.done_view Kind.reading p n)
    remove_stream-view Kind.writing p c n = ground (arith, d.done_view Kind.writing p n)

    pub remove_streams-view :
        (p : FilePath) (c : SyncClient FilePath) (n : N)
        → view (remove_streams dec net p (c, n)).1 ≡ view n
    unfolding remove_streams
    remove_streams-view p c n =
        let (c', n') = remove_stream dec net Kind.reading p (c, n) in
        remove_stream-view Kind.writing p c' n' ∙ remove_stream-view Kind.reading p c n

    -- A call of the stub that was lost was made once or not at all.
    pub lost_once :
        (request : Request FilePath) (s s' : S)
        → RequestFits request
        → Fitting operations request
        → MaybeServed (message request) s s'
        → (k : ℕ) × (k ≤ 1) × (s' ≡ times operations request k s)
    unfolding times
    lost_once request s s' fit ok (inl e) = (0, omega arith, e)
    lost_once request s s' fit ok (inr e) =
        (1, omega arith, e ∙ ap (λ x. x.1) (delivered operations request s fit ok))

    answered_once :
        (request : Request FilePath) (s s' : S) (a : Answer)
        → RequestFits request
        → Fitting operations request
        → (a, s') ≡ Server.serve operations (message request) s
        → (read_answer request a, s') ≡ direct operations request s
    answered_once request s s' a fit ok e =
        ap (λ x. (read_answer request x.0, x.1)) e ∙ delivered operations request s fit ok

    -- What came of a request that was made at most `bound` times.
    pub data Got (bound : ℕ) (request : Request FilePath) (s : S) (answer : Option Answer) (s' : S)
        : Type 0 where
      nothing :
          (k : ℕ)
          → answer ≡ none
          → k ≤ bound
          → s' ≡ times operations request k s
          → UnaryFails request
          → Got bound request s answer s'
      something :
          (k : ℕ) (a : Answer)
          → answer ≡ some a
          → k < bound
          → (read_answer request a, s') ≡ direct operations request (times operations request k s)
          → (k ≡ 0) ⊎ StreamFails
          → Got bound request s answer s'

    pub unary-Got :
        (request : Request FilePath) (n : N)
        → RequestFits request
        → Fitting operations request
        → let (answer, n') = net.unary (message request) n in
          Got 1 request (view n) answer (view n')
    unfolding times
    unary-Got request n fit ok = elim (Option-cases (net.unary (message request) n).0) [
      | inl miss ↦
          let (k, b, e) = lost_once request _ _ fit ok (d.unary_lost (message request) n miss) in
          nothing k miss b e (n, miss)
      | inr (a, hit) ↦
          something 0 a hit (omega arith)
            (answered_once request _ _ a fit ok (d.unary_ok (message request) n a hit)) (inl refl)
    ]

    pub unary-Outcome :
        (request : Request FilePath) (c : SyncClient FilePath) (n : N)
        → RequestFits request
        → Fitting operations request
        → let (reply, (c', n')) =
            unary dec net (message request) (lost request) (read_answer request) (c, n) in
          Outcome request (view n) reply (view n')
    unfolding unary
    unary-Outcome request c n fit ok = elim (unary-Got request n fit ok) [
      | nothing k miss b e u ↦ rw miss (failed k (ground arith) refl e u)
      | something k a hit b e z ↦ rw hit (answered k (ground arith) e z)
    ]
