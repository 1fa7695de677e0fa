-- ===== src/AsyncClient/Scheduler/Rest.antt =====
-- What the program may count on of the asynchronous client's threads.
use rsafe_fs.Base.{
  ◌+◌, ◌≤◌, ◌≡◌, refl, sym, ap, ◌∙◌, inl, inr, arith, true, List, [], ◌∷◌, ◌++◌, All, Option, none,
  some, length,
}
use rsafe_fs.AsyncClient.Scheduler.{Event, Scheduler, idle, receive, finish_call, Label, step}
use rsafe_fs.AsyncClient.Scheduler.Order.{IsValid, under_way, ended_events, flush_events}
use rsafe_fs.AsyncClient.Scheduler.Runs.{
  all_blocks, flat, of_running, work, is_internal, run, run_lem, internal_run_lem, writes,
}

module _ {B : Type 0} where
  pub idle-IsValid : IsValid {B = B} idle
  idle-IsValid = record { busy = refl; awake = inl refl; no_stop = refl; on = refl }

  -- However the threads interleave, `flushing` is set exactly while one call is under way or its end
  -- is on its way to the scheduler, no two calls are under way, a call that waits will be woken by an
  -- event, and the calls that ended, the one under way, those that wait and the blocks that no call
  -- has taken hold, in this order, every block written, in the order of the writes.
  pub run-IsValid :
      (ls : List (Label B)) (t : Scheduler B)
      → run ls idle ≡ some t
      → IsValid t × (all_blocks t ≡ writes ls)
  run-IsValid ls t r = run_lem ls idle t idle-IsValid r

  -- Without further writes and flushes, the scheduler and the calls come to rest: from any state that
  -- the threads reach, they make at most as many steps as there is work, however they interleave.
  pub run-internal :
      (ls is : List (Label B)) (s t : Scheduler B)
      → run ls idle ≡ some s
      → All (λ l. is_internal l ≡ true) is
      → run is s ≡ some t
      → length is + work t ≤ work s
  run-internal ls is s t r internal q =
      let (v, _) = run_lem ls idle s idle-IsValid r in (internal_run_lem is s t internal v q).2

  no_event : (es : List Event) (s : Scheduler B) → IsValid s → receive es s ≡ none → es ≡ []
  unfolding receive
  no_event [] s v h = refl
  no_event (e ∷ es) s v h = let on = v.on in ground arith

  no_call : (r : Option (List B)) (s : Scheduler B) → finish_call r s ≡ none → r ≡ none
  unfolding finish_call
  no_call none s h = refl
  no_call (some c) s h = cc

  pub nil_of_length : (cs : List (List B)) → length cs ≡ 0 → cs ≡ []
  nil_of_length [] h = refl
  nil_of_length (c ∷ cs) h = absurd (omega arith)

  -- When neither the scheduler nor a call can make a step, no call waits, and the calls that ended
  -- and the blocks that no call has taken hold together every block written, in order.
  pub run-rest :
      (ls : List (Label B)) (t : Scheduler B)
      → run ls idle ≡ some t
      → step Label.take_event t ≡ none
      → step Label.end_running t ≡ none
      → (t.calls ≡ []) × (flat t.ended ++ t.blocks ≡ writes ls)
  unfolding step
  run-rest ls t r no_take no_end =
      let (v, same) = run_lem ls idle t idle-IsValid r in
      let quiet : t.channel ≡ [] = no_event t.channel t v no_take in
      let free : t.running ≡ none = no_call t.running t no_end in
      let n : ended_events t.channel ≡ 0 = ap ended_events quiet in
      let m : flush_events t.channel ≡ 0 = ap flush_events quiet in
      let u : under_way t.running ≡ 0 = ap under_way free in
      let done : t.calls ≡ [] = elim v.awake [
        | inl nothing ↦ nil_of_length t.calls nothing
        | inr awake ↦ absurd (omega (arith, v.busy, n, m, u))
      ] in
      (
        done,
        ap (λ k. flat t.ended ++ (of_running k ++ (flat [] ++ t.blocks))) (sym free)
            ∙ ap (λ k. flat t.ended ++ (of_running t.running ++ (flat k ++ t.blocks))) (sym done)
            ∙ same,
      )
