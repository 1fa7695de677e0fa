-- ===== src/AsyncClient/Buffer/Bound.antt =====
-- The size of the cache of the asynchronous client stays bounded.
use rsafe_fs.Base.{
  ◌++◌, ◌==◌, drop, List-cases, ltb→lt, ◌-◌, ◌∙◌, subst, ℕ, ◌+◌, ◌≤◌, ◌≡◌, refl, sym, inl, inr,
  arith, List, [], ◌∷◌, Option, none, some, length, All, Bool-cases, Option-cases, ltb,
}
use rsafe_fs.AsyncClient.Scheduler.{Scheduler, end, receive, schedule_flush}
use rsafe_fs.AsyncClient.Scheduler.Rest.{idle-IsValid}
use rsafe_fs.AsyncClient.Scheduler.Runs.{of_running}
use rsafe_fs.AsyncClient.Buffer.{
  Client, fresh, Act, sum, append, flush_queue, begin_write, pop_next, pop_when, write_when,
  resume_when, flush_when, take_when, end_when, act, run,
}
use rsafe_fs.AsyncClient.Buffer.Counted.{
  pending, Held, Counted, take-Counted, pop-Counted, end-Counted, flush_lem, begin_write-Counted,
  resume-Counted,
}

module _ {B : Type 0} (size : B → ℕ) (max_cache_size flush_threshold largest : ℕ) where
  -- a write of at most the largest size
  abbrev pub IsSmall : Act B → Type 0
  IsSmall (Act.write b) = size b ≤ largest
  IsSmall a = Unit

  abbrev Count : Client B → Type 0
  Count = Counted size max_cache_size flush_threshold largest

  write-Count :
      (w : Option (B × ℕ)) (b : B) (c d : Client B)
      → Count c
      → size b ≤ largest
      → write_when size max_cache_size flush_threshold w b c ≡ some d
      → Count d
  unfolding write_when
  write-Count none b c d i small r =
      let same : begin_write size max_cache_size flush_threshold b c ≡ d = cc in
      subst Count same (begin_write-Counted size max_cache_size flush_threshold largest b c i small)
  write-Count (some w) b c d i small r = cc

  resume-Count :
      (w : Option (B × ℕ)) (c d : Client B)
      → c.waiting ≡ w
      → Count c
      → resume_when size w c ≡ some d
      → Count d
  unfolding resume_when
  resume-Count none c d e i r = cc
  resume-Count (some (b, k)) c d e i r = elim (Bool-cases (ltb k (length c.threads.ended))) [
    | inl set ↦
        let h : resume_when size (some (b, k)) c ≡ some (append size b c) =
          rw (resume_when, set) refl in
        let same : append size b c ≡ d = cc in
        subst Count same
          (resume-Counted size max_cache_size flush_threshold largest b k c i e (ltb→lt _ _ set))
    | inr unset ↦
        let h : resume_when size (some (b, k)) c ≡ none = rw (resume_when, unset) refl in absurd cc
  ]

  flush-Count :
      (w : Option (B × ℕ)) (c d : Client B)
      → c.waiting ≡ w
      → Count c
      → flush_when size w c ≡ some d
      → Count d
  unfolding flush_when flush_queue schedule_flush
  flush-Count none c d e i r =
      let same : flush_queue size c ≡ d = cc in
      let (v, n) = flush_lem size max_cache_size flush_threshold largest c i in
      subst Count same (record {
        valid = v;
        counts = n;
        begun = i.begun;
        held =
            subst
              (λ w. Held size max_cache_size flush_threshold largest w (flush_queue size c).threads)
              (sym e) tt;
        within = i.within;
      })
  flush-Count (some w) c d e i r = cc

  take-Count :
      (o : Option (Scheduler B)) (c d : Client B)
      → receive c.threads.channel c.threads ≡ o
      → Count c
      → take_when size o c ≡ some d
      → Count d
  unfolding take_when
  take-Count none c d e i r = cc
  take-Count (some s) c d e i r =
      let same : record c { threads = s } ≡ d = cc in
      subst Count same (take-Counted size max_cache_size flush_threshold largest c s i e)

  pop-Count :
      (o : Option (List B)) (c d : Client B)
      → c.threads.running ≡ o
      → Count c
      → pop_when size o c ≡ some d
      → Count d
  unfolding pop_when pop_next
  pop-Count none c d e i r = cc
  pop-Count (some bs) c d e i r = elim (List-cases (drop (length c.popped) bs)) [
    | inl all ↦ let h : pop_when size (some bs) c ≡ none = rw (pop_when, all) refl in absurd cc
    | inr (b, rest, next) ↦
        let h : pop_when size (some bs) c
            ≡ some
                (record c { popped = c.popped ++ (b ∷ []); cache_size = c.cache_size - size b }) =
          rw (pop_when, next) refl in
        let same : record c { popped = c.popped ++ (b ∷ []); cache_size = c.cache_size - size b }
            ≡ d =
          cc in
        subst Count same
          (pop-Counted size max_cache_size flush_threshold largest c bs rest b i e next)
  ]

  end-Count :
      (o : Option (List B)) (c d : Client B)
      → c.threads.running ≡ o
      → Count c
      → end_when size o c ≡ some d
      → Count d
  unfolding end_when
  end-Count none c d e i r = cc
  end-Count (some bs) c d e i r = elim (Bool-cases (length c.popped == length bs)) [
    | inl sent ↦
        let h : end_when size (some bs) c
            ≡ some (record c { threads = end bs c.threads; popped = [] }) =
          rw (end_when, sent) refl in
        let same : record c { threads = end bs c.threads; popped = [] } ≡ d = cc in
        subst Count same
          (end-Counted size max_cache_size flush_threshold largest c bs i e (ground (arith, sent)))
    | inr more ↦ let h : end_when size (some bs) c ≡ none = rw (end_when, more) refl in absurd cc
  ]

  act-Count :
      (a : Act B) (c d : Client B)
      → Count c
      → IsSmall a
      → act size max_cache_size flush_threshold a c ≡ some d
      → Count d
  unfolding act
  act-Count (Act.write b) c d i small r = write-Count c.waiting b c d i small r
  act-Count Act.resume c d i small r = resume-Count c.waiting c d refl i r
  act-Count Act.flush c d i small r = flush-Count c.waiting c d refl i r
  act-Count Act.take_event c d i small r =
      take-Count (receive c.threads.channel c.threads) c d refl i r
  act-Count Act.pop_block c d i small r = pop-Count c.threads.running c d refl i r
  act-Count Act.end_running c d i small r = end-Count c.threads.running c d refl i r

  run-Count :
      (acts : List (Act B)) (c d : Client B)
      → Count c
      → All IsSmall acts
      → run size max_cache_size flush_threshold acts c ≡ some d
      → Count d
  unfolding run
  run-Count [] c d i small r = let same : c ≡ d = cc in subst Count same i
  run-Count (a ∷ acts) c d i (small, rest) r =
      elim (Option-cases (act size max_cache_size flush_threshold a c)) [
        | inl miss ↦
            let h : run size max_cache_size flush_threshold (a ∷ acts) c ≡ none =
              rw (run, miss) refl in
            absurd cc
        | inr (u, hit) ↦
            let h : run size max_cache_size flush_threshold (a ∷ acts) c
                ≡ run size max_cache_size flush_threshold acts u =
              rw (run, hit) refl in
            run-Count acts u d (act-Count a c u i small hit) rest (sym h ∙ r)
      ]

  -- However the threads of the client interleave, also between the blocks of a call that are taken off
  -- one by one, its cache counts the bytes of the blocks that are kept, but those that the call under way
  -- has sent, which are the first of it; and it holds at most its configured size and one write, as long
  -- as no write is larger than `largest`.
  pub run-bounded :
      (acts : List (Act B)) (c : Client B)
      → All IsSmall acts
      → run size max_cache_size flush_threshold acts fresh ≡ some c
      → (c.cache_size + sum size c.popped ≡ pending size c.threads)
        × ((rest : List B) × (of_running c.threads.running ≡ c.popped ++ rest))
        × (c.cache_size ≤ max_cache_size + largest)
  run-bounded acts c small r =
      let start : Count fresh = record {
        valid = idle-IsValid;
        counts = refl;
        begun = ([], refl);
        held = tt;
        within = omega arith;
      } in
      let i = run-Count acts fresh c start small r in (i.counts, i.begun, i.within)
