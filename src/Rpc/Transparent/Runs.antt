-- ===== src/Rpc/Transparent/Runs.antt =====
-- A session of calls over a network that loses nothing.
use rsafe_fs.Base.{◌≡◌, ◌≢◌, refl, ap, inl, inr, ◌∙◌, false, none, List, [], ◌∷◌, All}
use rsafe_fs.Fuse.{Request, Reply, Layer}
use rsafe_fs.Rpc.Answers.{Call, Kind, Network}
use rsafe_fs.Rpc.Client.{SyncClient, State}
use rsafe_fs.Rpc.Client.Session.{handle}
use rsafe_fs.Rpc.Observed.{RequestFits, Fitting, direct, times}
use rsafe_fs.Rpc.Transparent.{Delivers, failed, answered}
use rsafe_fs.Rpc.Transparent.Calls.{handle-Outcome}

-- Every call is answered, and no stream fails.
pub record Reliable {FilePath N : Type 0} (net : Network FilePath N) : Type 0 where
  pub unary_answers : (q : Call FilePath) (m : N) → (net.unary q m).0 ≢ none
  pub stream_sends :
      (k : Kind) (p : FilePath) (q : Call FilePath) (m : N) → (net.stream_write k p q m).0 ≢ false
  pub stream_answers : (k : Kind) (p : FilePath) (m : N) → (net.stream_read k p m).0 ≢ none

unfoldable pub run_client :
    {FilePath N : Type 0}
    → Discrete FilePath
    → Network FilePath N
    → List (Request FilePath)
    → State FilePath N
    → List Reply × State FilePath N
run_client dec net [] st = ([], st)
run_client dec net (r ∷ rs) st =
    let (reply, st') = handle dec net r st in
    let (replies, end) = run_client dec net rs st' in (reply ∷ replies, end)

unfoldable pub run_direct :
    {FilePath S : Type 0} → Layer FilePath S → List (Request FilePath) → S → List Reply × S
run_direct operations [] s = ([], s)
run_direct operations (r ∷ rs) s =
    let (reply, s') = direct operations r s in
    let (replies, end) = run_direct operations rs s' in (reply ∷ replies, end)

module _ {FilePath N S : Type 0} (operations : Layer FilePath S) (net : Network FilePath N)
    (view : N → S) (d : Delivers operations net view) (reliable : Reliable net)
    (dec : Discrete FilePath) where
  handle-direct :
      (request : Request FilePath) (c : SyncClient FilePath) (n : N)
      → RequestFits request
      → Fitting operations request
      → let (reply, (c', n')) = handle dec net request (c, n) in
        (reply, view n') ≡ direct operations request (view n)
  unfolding times
  handle-direct request c n fit ok =
      elim (handle-Outcome operations net view d dec request c n fit ok) [
        | failed k b r e (m, lost) ↦ absurd (reliable.unary_answers _ m lost)
        | answered k b e (inl z) ↦
            e ∙ ap (λ i. direct operations request (times operations request i (view n))) z
        | answered k b e (inr (kind, p, q, m, inl unsent)) ↦
            absurd (reliable.stream_sends kind p q m unsent)
        | answered k b e (inr (kind, p, q, m, inr unread)) ↦
            absurd (reliable.stream_answers kind p m unread)
      ]

  -- Over a network that loses nothing, a session of any requests through the client and the server
  -- gives the replies of the operations called directly, in the parts that each gives back, and
  -- leaves the server's state as they do. The requests fit the fields of their messages, and so do
  -- the operations' replies to them.
  pub run_client-direct :
      (rs : List (Request FilePath)) (c : SyncClient FilePath) (n : N)
      → All RequestFits rs
      → All (Fitting operations) rs
      → let (replies, (c', n')) = run_client dec net rs (c, n) in
        (replies, view n') ≡ run_direct operations rs (view n)
  unfolding run_client run_direct
  run_client-direct [] c n fits oks = refl
  run_client-direct (r ∷ rs) c n (fit, fits) (ok, oks) =
      let (reply, (c', n')) = handle dec net r (c, n) in
      let first = handle-direct r c n fit ok in
      let rest = run_client-direct rs c' n' fits oks in
      ap (λ x. (reply ∷ x.0, x.1)) rest
      ∙ ap (λ x. let (replies, end) = run_direct operations rs x.1 in (x.0 ∷ replies, end)) first
