-- ===== src/Rpc/Transparent/Exchange.antt =====
-- The reads and writes of the client, over the stream of the path or without one.
use rsafe_fs.Base.{
  if◌then◌else◌, ℕ, zero, suc, ◌+◌, ◌≤◌, ◌≡◌, refl, ap, ◌∙◌, ◌⊎◌, inl, inr, arith, Bool, true,
  false, Bool-cases, Option, none, some, Option-cases, List, ℤ, subst,
}
use rsafe_fs.Base.Dict.{member}
use rsafe_fs.Fuse.{FileInfo, Request, Reply, Layer}
use rsafe_fs.Rpc.Answers.{Answer, Kind, Network}
use rsafe_fs.Rpc.Server.Streams
use rsafe_fs.Rpc.Client.{SyncClient, State, remove_streams}
use rsafe_fs.Rpc.Client.Files.{sync_request, exchange, read, write}
use rsafe_fs.Rpc.Observed.{RequestFits, Fitting, direct, times, lost, attempts}
use rsafe_fs.Rpc.Requests.{message, read_answer}
use rsafe_fs.Rpc.Streamed.{read_streamed, write_streamed}
use rsafe_fs.Rpc.Transparent.{
  Delivers, Outcome, Got, StreamFails, nothing, something, failed, answered, create_streams-view,
  remove_streams-view, lost_once, unary-Got,
}

times-times :
    {FilePath S : Type 0} (operations : Layer FilePath S) (request : Request FilePath) (k j : ℕ)
    (s : S)
    → times operations request k (times operations request j s) ≡ times operations request (k + j) s
unfolding times
times-times operations request zero j s =
    ap (λ i. times operations request i s) {x = j} {y = 0 + j} (omega arith)
times-times operations request (suc k) j s =
    ap (λ t. (direct operations request t).1) (times-times operations request k j s)
    ∙ ap (λ i. times operations request i s) {x = suc (k + j)} {y = suc k + j} (omega arith)

module _ {FilePath N S : Type 0} (operations : Layer FilePath S) (net : Network FilePath N)
    (view : N → S) (d : Delivers operations net view) (dec : Discrete FilePath) where
  abbrev Gets : ℕ → Request FilePath → S → Option Answer × State FilePath N → Type 0
  Gets bound request s r = Got operations net view d dec bound request s r.0 (view r.1.1)

  sync_request-Got :
      (request : Request FilePath) (path : FilePath) (flags : ℕ) (c : SyncClient FilePath) (n : N)
      → RequestFits request
      → Fitting operations request
      → let (answer, (c', n')) = sync_request dec net path flags (message request) (c, n) in
        Got operations net view d dec 1 request (view n) answer (view n')
  unfolding sync_request
  sync_request-Got request path flags c n fit ok =
      elim (unary-Got operations net view d dec request n fit ok) [
        | nothing k miss b e u ↦ rw (sync_request, miss) (nothing k refl b e u)
        | something k a hit b e z ↦
            rw
              (
                sync_request,
                hit,
                create_streams-view operations net view d dec path flags c
                    (net.unary (message request) n).1,
              )
              (something k a refl b e z)
      ]

  -- What is asked again after `j` executions.
  Gets-after :
      (request : Request FilePath) (j : ℕ) (s : S) (r : Option Answer × State FilePath N)
      → j ≤ 1
      → (j ≡ 0) ⊎ StreamFails operations net view
      → Gets 1 request (times operations request j s) r
      → Gets 2 request s r
  Gets-after request j s r b first (nothing k miss h e u) =
      nothing (k + j) miss (omega arith) (e ∙ times-times operations request k j s) u
  Gets-after request j s r b first (something k a hit h e z) =
      something (k + j) a hit (omega arith)
        (e ∙ ap (direct operations request) (times-times operations request k j s))
        (elim first [ inl zero_first ↦ inl (omega arith) | inr fails ↦ inr fails ])

  -- A stream of this path answers the request as the operation called directly.
  abbrev Streamed : Request FilePath → Type 0
  Streamed request =
      (old : Answer) (s : S)
      → let (a, s') = Streams.answer operations old (message request) s in
        (read_answer request a, s') ≡ direct operations request s

  retried :
      (request : Request FilePath) (path : FilePath) (flags : ℕ) (c : SyncClient FilePath)
      (n₀ n : N)
      → RequestFits request
      → Fitting operations request
      → StreamFails operations net view
      → (j : ℕ) × (j ≤ 1) × (view n ≡ times operations request j (view n₀))
      → Gets 2 request
          (view n₀)
          (sync_request dec net path flags (message request) (remove_streams dec net path (c, n)))
  retried request path flags c n₀ n fit ok fails (j, b, e) =
      let (c', n') = remove_streams dec net path (c, n) in
      let r = sync_request dec net path flags (message request) (c', n') in
      let here : view n' ≡ times operations request j (view n₀) =
        remove_streams-view operations net view d dec path c n ∙ e in
      Gets-after request j (view n₀) r b (inr fails)
        (subst (λ s. Gets 1 request s r) here (sync_request-Got request path flags c' n' fit ok))

  exchange-Got :
      (kind : Kind) (request : Request FilePath) (path : FilePath) (flags : ℕ)
      (c : SyncClient FilePath) (n : N)
      → RequestFits request
      → Fitting operations request
      → Streamed request
      → Gets 2 request (view n) (exchange dec net kind path flags (message request) (c, n))
  unfolding exchange times
  exchange-Got kind request path flags c n fit ok streamed =
      let q = message request in
      let n₁ = (net.stream_write kind path q n).1 in
      let n₂ = (net.stream_read kind path n₁).1 in
      elim (Bool-cases (net.stream_write kind path q n).0) [
        | inr unsent ↦
            let once =
              lost_once operations net view d dec request (view n) (view n₁) fit ok
                (d.stream_unsent kind path q n unsent) in
            rw unsent (retried request path flags c n n₁ fit ok (kind, path, q, n, inl unsent) once)
        | inl done ↦ elim (Option-cases (net.stream_read kind path n₁).0) [
          | inl miss ↦
              let once =
                lost_once operations net view d dec request (view n) (view n₂) fit ok
                  (d.stream_lost kind path q n done miss) in
              rw (done, miss)
                (retried request path flags c n n₂ fit ok (kind, path, q, n₁, inr miss) once)
          | inr (a, hit) ↦
              let (old, e) = d.stream_ok kind path q n a done hit in
              rw (done, hit)
                (something 0 a refl (omega arith)
                  (ap (λ x. (read_answer request x.0, x.1)) e ∙ streamed old (view n)) (inl refl))
        ]
      ]

  -- A read or a write, with a stream for its path or without.
  transfer-Got :
      (has_stream : Bool) (kind : Kind) (request : Request FilePath) (path : FilePath) (flags : ℕ)
      (c : SyncClient FilePath) (n : N)
      → RequestFits request
      → Fitting operations request
      → Streamed request
      → Gets 2 request (view n) (
          if has_stream
          then exchange dec net kind path flags (message request) (c, n)
          else sync_request dec net path flags (message request) (c, n))
  unfolding times
  transfer-Got true kind request path flags c n fit ok streamed =
      exchange-Got kind request path flags c n fit ok streamed
  transfer-Got false kind request path flags c n fit ok streamed =
      let r = sync_request dec net path flags (message request) (c, n) in
      Gets-after request 0 (view n) r (omega arith) (inl refl)
        (sync_request-Got request path flags c n fit ok)

  -- the end of a read or a write
  abbrev settled : Request FilePath → Option Answer × State FilePath N → Reply × State FilePath N
  settled request r = elim r.0 [
    | none ↦ (lost request, r.1)
    | some a ↦ (read_answer request a, r.1)
  ]

  transfer-Outcome :
      (request : Request FilePath) (s : S) (r : Option Answer × State FilePath N)
      → 2 ≤ attempts request
      → Gets 2 request s r
      → let (reply, (c', n')) = settled request r in
        Outcome operations net view request s reply (view n')
  transfer-Outcome request s r two (nothing k miss b e u) =
      rw miss (failed k (omega arith) refl e u)
  transfer-Outcome request s r two (something k a hit b e z) = rw hit (answered k (omega arith) e z)

  pub read-Outcome :
      (path : FilePath) (size : ℕ) (offset : ℤ) (fi : FileInfo) (c : SyncClient FilePath) (n : N)
      → let request = Request.read path size offset fi in
        RequestFits request
        → Fitting operations request
        → let (reply, (c', n')) = read dec net path size offset fi (c, n) in
          Outcome operations net view request (view n) reply (view n')
  unfolding read message read_answer lost
  read-Outcome path size offset fi c n fit ok =
      let request = Request.read path size offset fi in
      let streamed : Streamed request =
        λ old s. read_streamed operations old path size offset fi s fit ok in
      transfer-Outcome request (view n) _ (omega arith) (
        transfer-Got (member dec path c.read_streams) Kind.reading request path 0 c n fit ok
          streamed)

  pub write-Outcome :
      (path : FilePath) (buf : List ℕ) (offset : ℤ) (fi : FileInfo) (c : SyncClient FilePath)
      (n : N)
      → let request = Request.write path buf offset fi in
        RequestFits request
        → Fitting operations request
        → let (reply, (c', n')) = write dec net path buf offset fi (c, n) in
          Outcome operations net view request (view n) reply (view n')
  unfolding write message read_answer lost
  write-Outcome path buf offset fi c n fit ok =
      let request = Request.write path buf offset fi in
      let streamed : Streamed request =
        λ old s. write_streamed operations old path buf offset fi s fit ok in
      transfer-Outcome request (view n) _ (omega arith) (
        transfer-Got (member dec path c.write_streams) Kind.writing request path 1 c n fit ok
          streamed)
