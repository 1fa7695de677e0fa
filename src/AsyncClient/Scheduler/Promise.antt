-- ===== src/AsyncClient/Scheduler/Promise.antt =====
-- What the promise of a call says: `flush` and `fsync` of lib/fuse_rpc/grpc/async_client.cpp wait for it.
use mathlib.Core.List.{append-nil, append_assoc}
use rsafe_fs.Base.{
  subst, ◌≤◌, ◌<◌, ◌≡◌, refl, sym, ap, ◌∙◌, arith, List, [], ◌∷◌, ◌++◌, Option, none, some, length,
  drop, length-append,
}
use rsafe_fs.AsyncClient.Scheduler.{
  Scheduler, idle, end, start_call, start_next, schedule_flush, finish_call, Label, step,
}
use rsafe_fs.AsyncClient.Scheduler.Order.{IsValid, step-IsValid, receive-keeps}
use rsafe_fs.AsyncClient.Scheduler.Runs.{
  run, run-cons, flat, flat-append, of_running, all_blocks, writes,
}
use rsafe_fs.AsyncClient.Scheduler.Rest.{run-IsValid}

module _ {B : Type 0} where
  abbrev pub listed : Option (List B) → List (List B)
  listed none = []
  listed (some c) = c ∷ []

  -- The calls in the order in which they were scheduled.
  abbrev pub scheduled : Scheduler B → List (List B)
  scheduled s = s.ended ++ (listed s.running ++ s.calls)

  -- the calls that a step schedules
  abbrev pub added : Label B → Scheduler B → List (List B)
  added Label.flush s = s.blocks ∷ []
  added l s = []

  pub start_next-scheduled :
      (cs : List (List B)) (s : Scheduler B)
      → s.calls ≡ cs
      → s.running ≡ none
      → scheduled (start_next cs s) ≡ scheduled s
  unfolding start_next start_call end
  start_next-scheduled [] s e free = refl
  start_next-scheduled ([] ∷ cs) s e free = rw (free, e) (append_assoc s.ended ([] ∷ []) cs)
  start_next-scheduled ((b ∷ bs) ∷ cs) s e free = rw (free, e) refl

  pub end-scheduled :
      (r : Option (List B)) (s t : Scheduler B)
      → s.running ≡ r
      → finish_call r s ≡ some t
      → scheduled t ≡ scheduled s
  unfolding finish_call end
  end-scheduled none s t e r = cc
  end-scheduled (some c) s t e r =
      let same : end c s ≡ t = cc in
      subst (λ t. scheduled t ≡ scheduled s) same (rw e (append_assoc s.ended (c ∷ []) s.calls))

  pub step-scheduled :
      (l : Label B) (s t : Scheduler B)
      → IsValid s
      → step l s ≡ some t
      → scheduled t ≡ scheduled s ++ added l s
  unfolding step schedule_flush
  step-scheduled (Label.write b) s t v r =
      let same : record s { blocks = s.blocks ++ (b ∷ []) } ≡ t = cc in
      subst (λ t. scheduled t ≡ scheduled s ++ []) same (sym (append-nil (scheduled s)))
  step-scheduled Label.flush s t v r =
      let same : schedule_flush s ≡ t = cc in
      subst (λ t. scheduled t ≡ scheduled s ++ (s.blocks ∷ [])) same
        (sym (
          append_assoc s.ended (listed s.running ++ s.calls) (s.blocks ∷ [])
          ∙ ap (◌++◌ s.ended) (append_assoc (listed s.running) s.calls (s.blocks ∷ []))))
  step-scheduled Label.take_event s t v r =
      receive-keeps scheduled (λ s es b. refl) start_next-scheduled s.channel s t refl v r
      ∙ sym (append-nil (scheduled s))
  step-scheduled Label.end_running s t v r =
      end-scheduled s.running s t refl r ∙ sym (append-nil (scheduled s))

  -- Calls are only added, at the end.
  run-scheduled :
      (ls : List (Label B)) (s t : Scheduler B)
      → IsValid s
      → run ls s ≡ some t
      → (more : List (List B)) × (scheduled t ≡ scheduled s ++ more)
  unfolding run
  run-scheduled [] s t v r =
      let same : s ≡ t = cc in ([], ap scheduled (sym same) ∙ sym (append-nil (scheduled s)))
  run-scheduled (l ∷ ls) s t v r =
      let (u, first, rest) = run-cons l ls s t r in
      let (more, same) = run-scheduled ls u t (step-IsValid l s u v first) rest in
      (
        added l s ++ more,
        same
            ∙ ap (λ k. k ++ more) (step-scheduled l s u v first)
            ∙ append_assoc (scheduled s) (added l s) more,
      )

  -- A list that is long enough begins with what the whole begins with.
  begins :
      (xs ys q zs : List (List B))
      → xs ++ ys ≡ q ++ zs
      → length q ≤ length xs
      → xs ≡ q ++ drop (length q) xs
  begins xs ys [] zs e h = refl
  begins [] ys (a ∷ q) zs e h = absurd (omega arith)
  begins (x ∷ xs) ys (a ∷ q) zs e h =
      let first : x ≡ a = cc in
      let rest : xs ++ ys ≡ q ++ zs = cc in
      rw first (ap (◌∷◌ a) (begins xs ys q zs rest (omega arith)))

  flat-listed :
      (r : Option (List B)) (cs : List (List B)) → flat (listed r ++ cs) ≡ of_running r ++ flat cs
  flat-listed none cs = refl
  flat-listed (some c) cs = refl

  -- The blocks of the calls, and those that no call has taken.
  all_blocks-scheduled : (s : Scheduler B) → all_blocks s ≡ flat (scheduled s) ++ s.blocks
  all_blocks-scheduled s = sym (
      ap (λ l. l ++ s.blocks)
        (flat-append s.ended (listed s.running ++ s.calls)
          ∙ ap (◌++◌ (flat s.ended)) (flat-listed s.running s.calls))
      ∙ append_assoc (flat s.ended) (of_running s.running ++ flat s.calls) s.blocks
      ∙ ap (◌++◌ (flat s.ended)) (append_assoc (of_running s.running) (flat s.calls) s.blocks))

  -- When the promise of a flush is set, however the threads went on behind it, the calls that ended
  -- have uploaded every block written before the flush, in order, and behind these only others.
  pub flush_promise :
      (before after : List (Label B)) (s t : Scheduler B)
      → run before idle ≡ some s
      → run after (schedule_flush s) ≡ some t
      → length (scheduled s) < length t.ended
      → (others : List B) × (flat t.ended ≡ writes before ++ others)
  unfolding step
  flush_promise before after s t p q set =
      let (v, same) = run-IsValid before s p in
      let u : Scheduler B = schedule_flush s in
      let v' : IsValid u = step-IsValid Label.flush s u v refl in
      let (more, later) = run-scheduled after u t v' q in
      let now : scheduled u ≡ scheduled s ++ (s.blocks ∷ []) =
        step-scheduled Label.flush s u v refl in
      let whole = later ∙ ap (λ k. k ++ more) now in
      let calls = scheduled s ++ (s.blocks ∷ []) in
      let enough : length calls ≤ length t.ended =
        omega (arith, set, length-append (scheduled s) (s.blocks ∷ [])) in
      let cut = begins t.ended (listed t.running ++ t.calls) calls more whole enough in
      let left = drop (length calls) t.ended in
      (
        flat left,
        ap flat cut
            ∙ flat-append calls left
            ∙ ap (λ k. k ++ flat left)
                (flat-append (scheduled s) (s.blocks ∷ [])
                  ∙ ap (◌++◌ (flat (scheduled s))) (append-nil s.blocks)
                  ∙ sym (all_blocks-scheduled s)
                  ∙ same),
      )
