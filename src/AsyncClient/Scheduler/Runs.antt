-- ===== src/AsyncClient/Scheduler/Runs.antt =====
-- A run of the asynchronous client's threads: every block that was written is where the order of the
-- writes puts it, and without further writes and flushes the scheduler comes to rest with no call left.
use mathlib.Core.List.{append-nil, append_assoc}
use rsafe_fs.Base.{
  Option-cases, All, subst, ℕ, suc, ◌+◌, ◌*◌, ◌≤◌, ◌<◌, ◌≡◌, refl, sym, ap, ◌∙◌, inl, inr, arith,
  Bool, true, false, List, [], ◌∷◌, ◌++◌, Option, none, some, length, length-append, Bool-cases,
}
use rsafe_fs.AsyncClient.Scheduler.{
  Event, Scheduler, end, start_call, start_next, handle_event, receive, schedule_flush, finish_call,
  Label, step,
}
use rsafe_fs.AsyncClient.Scheduler.Order.{
  IsValid, step-IsValid, under_way, stop_events, taken, ended_free, idle_free,
}

module _ {B : Type 0} where
  abbrev pub flat : List (List B) → List B
  flat [] = []
  flat (c ∷ cs) = c ++ flat cs

  pub flat-append : (cs ds : List (List B)) → flat (cs ++ ds) ≡ flat cs ++ flat ds
  flat-append [] ds = refl
  flat-append (c ∷ cs) ds =
      ap (◌++◌ c) (flat-append cs ds) ∙ sym (append_assoc c (flat cs) (flat ds))

  abbrev pub of_running : Option (List B) → List B
  of_running none = []
  of_running (some c) = c

  -- The blocks of the calls that ended, of the call under way and of those that wait, and those that
  -- no call has taken.
  abbrev pub all_blocks : Scheduler B → List B
  all_blocks s = flat s.ended ++ (of_running s.running ++ (flat s.calls ++ s.blocks))

  abbrev pub written : Label B → List B
  written (Label.write b) = b ∷ []
  written l = []

  flat-snoc :
      (cs : List (List B)) (c rest : List B)
      → flat (cs ++ (c ∷ [])) ++ rest ≡ flat cs ++ (c ++ rest)
  flat-snoc cs c rest =
      ap (λ l. l ++ rest) (flat-append cs (c ∷ []) ∙ ap (◌++◌ (flat cs)) (append-nil c))
      ∙ append_assoc (flat cs) c rest

  start_next-all_blocks :
      (cs : List (List B)) (s : Scheduler B)
      → s.calls ≡ cs
      → s.running ≡ none
      → all_blocks (start_next cs s) ≡ all_blocks s
  unfolding start_next start_call end
  start_next-all_blocks [] s e free = refl
  start_next-all_blocks ([] ∷ cs) s e free =
      rw (free, e) (flat-snoc s.ended [] (flat cs ++ s.blocks))
  start_next-all_blocks ((b ∷ bs) ∷ cs) s e free =
      rw (free, e) (ap (◌++◌ (flat s.ended)) (sym (append_assoc (b ∷ bs) (flat cs) s.blocks)))

  -- What is left to do: an event to take, a call to start and to end.
  abbrev pub work : Scheduler B → ℕ
  work s = length s.channel + length s.calls * 2 + under_way s.running * 2

  start_next-work :
      (cs : List (List B)) (s : Scheduler B)
      → s.calls ≡ cs
      → s.running ≡ none
      → work (start_next cs s) ≤ work s
  unfolding start_next start_call end
  start_next-work [] s e free = omega arith
  start_next-work ([] ∷ cs) s e free =
      rw (free, e) (omega (arith, length-append s.channel (Event.call_ended ∷ [])))
  start_next-work ((b ∷ bs) ∷ cs) s e free = rw (free, e) (omega arith)

  -- Taking an event moves no block out of its place, and is work done.
  take_lem :
      (es : List Event) (s t : Scheduler B)
      → s.channel ≡ es
      → IsValid s
      → receive es s ≡ some t
      → (all_blocks t ≡ all_blocks s) × (work t < work s)
  unfolding receive handle_event
  take_lem [] s t e v r = cc
  take_lem (Event.terminated ∷ es) s t e v r =
      let n : stop_events s.channel ≡ stop_events es + 1 = ap stop_events e in
      absurd (omega (arith, n, v.no_stop))
  take_lem (Event.call_ended ∷ es) s t e v r =
      let s' : Scheduler B = record s { channel = es; flushing = false } in
      let free = (ended_free es s e v).1 in
      let n : length s.channel ≡ suc (length es) = ap length e in
      let w = start_next-work s.calls s' refl free in
      subst (λ t. (all_blocks t ≡ all_blocks s) × (work t < work s))
        (taken Event.call_ended es s t v.on r)
        (start_next-all_blocks s.calls s' refl free, omega (arith, n, w))
  take_lem (Event.flush_request ∷ es) s t e v r =
      let n : length s.channel ≡ suc (length es) = ap length e in
      subst (λ t. (all_blocks t ≡ all_blocks s) × (work t < work s))
        (taken Event.flush_request es s t v.on r)
        (elim (Bool-cases s.flushing) [
          | inl busy_now ↦ rw (handle_event, busy_now) (refl, omega (arith, n))
          | inr idle_now ↦
              let free = (idle_free s idle_now v).1 in
              let idle_s : Scheduler B = record s { channel = es; flushing = false } in
              rw (handle_event, idle_now)
                (
                  start_next-all_blocks s.calls idle_s refl free,
                  omega (arith, n, start_next-work s.calls idle_s refl free),
                )
        ])

  end_lem :
      (r : Option (List B)) (s t : Scheduler B)
      → s.running ≡ r
      → finish_call r s ≡ some t
      → (all_blocks t ≡ all_blocks s) × (work t < work s)
  unfolding finish_call end
  end_lem none s t e r = cc
  end_lem (some c) s t e r =
      let same : end c s ≡ t = cc in
      subst (λ t. (all_blocks t ≡ all_blocks s) × (work t < work s)) same
        (
          rw e (flat-snoc s.ended c (flat s.calls ++ s.blocks)),
          omega (arith, ap under_way e, length-append s.channel (Event.call_ended ∷ [])),
        )

  -- The steps of the scheduler and of the calls, without those of the program's other threads.
  abbrev pub is_internal : Label B → Bool
  is_internal Label.take_event = true
  is_internal Label.end_running = true
  is_internal l = false

  internal_lem :
      (l : Label B) (s t : Scheduler B)
      → is_internal l ≡ true
      → IsValid s
      → step l s ≡ some t
      → (all_blocks t ≡ all_blocks s) × (work t < work s)
  unfolding step
  internal_lem Label.take_event s t i v r = take_lem s.channel s t refl v r
  internal_lem Label.end_running s t i v r = end_lem s.running s t refl r
  internal_lem (Label.write b) s t i v r = cc
  internal_lem Label.flush s t i v r = cc

  step-all_blocks :
      (l : Label B) (s t : Scheduler B)
      → IsValid s
      → step l s ≡ some t
      → all_blocks t ≡ all_blocks s ++ written l
  unfolding step schedule_flush
  step-all_blocks (Label.write b) s t v r =
      let same : record s { blocks = s.blocks ++ (b ∷ []) } ≡ t = cc in
      subst (λ t. all_blocks t ≡ all_blocks s ++ (b ∷ [])) same
        (sym (
          append_assoc (flat s.ended) (of_running s.running ++ (flat s.calls ++ s.blocks)) (b ∷ [])
          ∙ ap (◌++◌ (flat s.ended)) (
              append_assoc (of_running s.running) (flat s.calls ++ s.blocks) (b ∷ [])
              ∙ ap (◌++◌ (of_running s.running)) (append_assoc (flat s.calls) s.blocks (b ∷ [])))))
  step-all_blocks Label.flush s t v r =
      let same : schedule_flush s ≡ t = cc in
      subst (λ t. all_blocks t ≡ all_blocks s ++ []) same
        (ap (λ l. flat s.ended ++ (of_running s.running ++ l))
            (flat-snoc s.calls s.blocks [] ∙ ap (◌++◌ (flat s.calls)) (append-nil s.blocks))
          ∙ sym (append-nil (all_blocks s)))
  step-all_blocks Label.take_event s t v r =
      (take_lem s.channel s t refl v r).0 ∙ sym (append-nil (all_blocks s))
  step-all_blocks Label.end_running s t v r =
      (end_lem s.running s t refl r).0 ∙ sym (append-nil (all_blocks s))

  unfoldable pub run : List (Label B) → Scheduler B → Option (Scheduler B)
  run [] s = some s
  run (l ∷ ls) s = elim (step l s) [ none ↦ none | some t ↦ run ls t ]

  -- the blocks that were written, in order
  unfoldable pub writes : List (Label B) → List B
  writes [] = []
  writes (l ∷ ls) = written l ++ writes ls

  -- The first step of a run, and the rest of it.
  pub run-cons :
      (l : Label B) (ls : List (Label B)) (s t : Scheduler B)
      → run (l ∷ ls) s ≡ some t
      → (u : Scheduler B) × (step l s ≡ some u) × (run ls u ≡ some t)
  unfolding run
  run-cons l ls s t r = elim (Option-cases (step l s)) [
    | inl miss ↦ let h : run (l ∷ ls) s ≡ none = rw (run, miss) refl in absurd cc
    | inr (u, hit) ↦ let h : run (l ∷ ls) s ≡ run ls u = rw (run, hit) refl in (u, hit, sym h ∙ r)
  ]

  pub run_lem :
      (ls : List (Label B)) (s t : Scheduler B)
      → IsValid s
      → run ls s ≡ some t
      → IsValid t × (all_blocks t ≡ all_blocks s ++ writes ls)
  unfolding run writes
  run_lem [] s t v r =
      let same : s ≡ t = cc in
      subst (λ t. IsValid t × (all_blocks t ≡ all_blocks s ++ [])) same
        (v, sym (append-nil (all_blocks s)))
  run_lem (l ∷ ls) s t v r =
      let (u, first, rest) = run-cons l ls s t r in
      let (v', same) = run_lem ls u t (step-IsValid l s u v first) rest in
      (
        v',
        same
            ∙ ap (λ k. k ++ writes ls) (step-all_blocks l s u v first)
            ∙ append_assoc (all_blocks s) (written l) (writes ls),
      )

  pub internal_run_lem :
      (ls : List (Label B)) (s t : Scheduler B)
      → All (λ l. is_internal l ≡ true) ls
      → IsValid s
      → run ls s ≡ some t
      → IsValid t × (all_blocks t ≡ all_blocks s) × (length ls + work t ≤ work s)
  unfolding run
  internal_run_lem [] s t i v r =
      let same : s ≡ t = cc in
      subst (λ t. IsValid t × (all_blocks t ≡ all_blocks s) × (0 + work t ≤ work s)) same
        (v, refl, omega arith)
  internal_run_lem (l ∷ ls) s t (i, is) v r =
      let (u, first, rest) = run-cons l ls s t r in
      let (same, less) = internal_lem l s u i v first in
      let (v', same', less') = internal_run_lem ls u t is (step-IsValid l s u v first) rest in
      (v', same' ∙ same, omega (arith, less, less'))
