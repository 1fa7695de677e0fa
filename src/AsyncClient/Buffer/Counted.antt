-- ===== src/AsyncClient/Buffer/Counted.antt =====
-- The size of the cache of the asynchronous client counts what is not uploaded, step by step.
use rsafe_fs.Base.{
  subst, ℕ, suc, ◌+◌, ◌-◌, ◌≤◌, ◌<◌, ◌≡◌, refl, sym, ap, ◌∙◌, inl, inr, arith, List, [], ◌∷◌, ◌++◌,
  Option, none, some, length, Bool-cases, ltb, length-append, drop,
}
use mathlib.Core.List.{append_assoc}
use rsafe_fs.AsyncClient.Scheduler.{
  Scheduler, end, start_call, start_next, receive, schedule_flush, finish_call, Label, step,
}
use rsafe_fs.AsyncClient.Scheduler.Order.{IsValid, step-IsValid, receive-keeps, receive-running}
use rsafe_fs.AsyncClient.Scheduler.Runs.{flat, flat-append, of_running}
use rsafe_fs.AsyncClient.Scheduler.Promise.{
  listed, scheduled, start_next-scheduled, step-scheduled, end-scheduled,
}
use rsafe_fs.AsyncClient.Scheduler.Rest.{nil_of_length}
use rsafe_fs.AsyncClient.Buffer.{Client, sum, append, flush_queue, begin_write}

module _ {B : Type 0} (size : B → ℕ) where
  sum-append : (bs cs : List B) → sum size (bs ++ cs) ≡ sum size bs + sum size cs
  sum-append [] cs = omega arith
  sum-append (b ∷ bs) cs = omega (arith, sum-append bs cs)

  drop-append : (bs cs : List B) → drop (length bs) (bs ++ cs) ≡ cs
  drop-append [] cs = refl
  drop-append (b ∷ bs) cs = drop-append bs cs

  sum_of_nothing : (bs : List B) → length bs ≡ 0 → sum size bs ≡ 0
  sum_of_nothing [] h = refl
  sum_of_nothing (b ∷ bs) h = absurd (omega arith)

  none_of_listed : (r : Option (List B)) → length (listed r) ≡ 0 → r ≡ none
  none_of_listed none h = refl
  none_of_listed (some c) h = absurd (omega arith)

  -- What is not uploaded yet.
  abbrev pub pending : Scheduler B → ℕ
  pending s = sum size (of_running s.running) + (sum size (flat s.calls) + sum size s.blocks)

  start_next-pending :
      (cs : List (List B)) (s : Scheduler B)
      → s.calls ≡ cs
      → s.running ≡ none
      → pending (start_next cs s) ≡ pending s
  unfolding start_next start_call end
  start_next-pending [] s e free = refl
  start_next-pending ([] ∷ cs) s e free = rw (free, e) refl
  start_next-pending ((b ∷ bs) ∷ cs) s e free =
      rw (free, e) (omega (arith, sum-append (b ∷ bs) (flat cs)))

  start_next-blocks :
      (cs : List (List B)) (s : Scheduler B)
      → s.calls ≡ cs
      → s.running ≡ none
      → Scheduler.blocks (start_next cs s) ≡ s.blocks
  unfolding start_next start_call end
  start_next-blocks [] s e free = refl
  start_next-blocks ([] ∷ cs) s e free = refl
  start_next-blocks ((b ∷ bs) ∷ cs) s e free = refl

  module _ (max_cache_size flush_threshold largest : ℕ) where
    -- While a write waits, its flush has taken all blocks and is the last call.
    abbrev pub Held : Option (B × ℕ) → Scheduler B → Type 0
    Held none s = Unit
    Held (some (b, k)) s = (size b ≤ largest) × (s.blocks ≡ []) × (length (scheduled s) ≡ suc k)

    pub record Counted (c : Client B) : Type 0 where
      pub valid : IsValid c.threads
      pub counts : c.cache_size + sum size c.popped ≡ pending c.threads
      pub begun : (rest : List B) × (of_running c.threads.running ≡ c.popped ++ rest)
      pub held : Held c.waiting c.threads
      pub within : c.cache_size ≤ max_cache_size + largest

    Held-kept :
        (w : Option (B × ℕ)) (s t : Scheduler B)
        → t.blocks ≡ s.blocks
        → scheduled t ≡ scheduled s
        → Held w s
        → Held w t
    Held-kept none s t same order h = tt
    Held-kept (some (b, k)) s t same order (small, empty, n) =
        (small, same ∙ empty, ap length order ∙ n)

    nothing_popped : (ps rest : List B) → [] ≡ ps ++ rest → ps ≡ []
    nothing_popped [] rest h = refl
    nothing_popped (b ∷ ps) rest h = absurd cc

    -- What is sent of the call under way stays so; a call that is started has sent nothing.
    receive-begun :
        (c : Client B) (s : Scheduler B)
        → Counted c
        → receive c.threads.channel c.threads ≡ some s
        → (o : Option (List B)) → c.threads.running ≡ o
        → (rest : List B) × (of_running s.running ≡ c.popped ++ rest)
    receive-begun c s i r none e =
        let (rest, same) = i.begun in
        let empty = nothing_popped c.popped rest (ap of_running (sym e) ∙ same) in
        (of_running s.running, ap (λ ps. ps ++ of_running s.running) (sym empty))
    receive-begun c s i r (some bs) e =
        let (rest, same) = i.begun in
        let on = receive-running bs c.threads.channel c.threads s refl i.valid e r in
        (rest, ap of_running (on ∙ sym e) ∙ same)

    pub take-Counted :
        (c : Client B) (s : Scheduler B)
        → Counted c
        → receive c.threads.channel c.threads ≡ some s
        → Counted (record c { threads = s })
    unfolding step
    take-Counted c s i r =
        let es = c.threads.channel in
        let u = c.threads in
        record {
          valid = step-IsValid Label.take_event u s i.valid r;
          counts =
              i.counts
              ∙ sym
                  (receive-keeps pending (λ s es b. refl) start_next-pending es u s refl i.valid r);
          begun = receive-begun c s i r u.running refl;
          held =
              Held-kept c.waiting u s
                (receive-keeps Scheduler.blocks (λ s es b. refl) start_next-blocks es u s refl
                  i.valid r)
                (receive-keeps scheduled (λ s es b. refl) start_next-scheduled es u s refl i.valid
                  r)
                i.held;
          within = i.within;
        }

    pub pop-Counted :
        (c : Client B) (bs rest : List B) (b : B)
        → Counted c
        → c.threads.running ≡ some bs
        → drop (length c.popped) bs ≡ b ∷ rest
        → Counted (record c { popped = c.popped ++ (b ∷ []); cache_size = c.cache_size - size b })
    pop-Counted c bs rest b i e next =
        let u = c.threads in
        let (others, same) = i.begun in
        let whole : bs ≡ c.popped ++ others = ap of_running (sym e) ∙ same in
        let left : others ≡ b ∷ rest =
          sym (drop-append c.popped others) ∙ ap (drop (length c.popped)) (sym whole) ∙ next in
        let n : pending u ≡ sum size bs + (sum size (flat u.calls) + sum size u.blocks) =
          ap (λ r. sum size (of_running r) + (sum size (flat u.calls) + sum size u.blocks)) e in
        let parts : sum size bs ≡ sum size c.popped + sum size others =
          ap (sum size) whole ∙ sum-append c.popped others in
        let first : sum size others ≡ size b + sum size rest = ap (sum size) left in
        record {
          valid = i.valid;
          counts = omega (arith, i.counts, n, parts, first, sum-append c.popped (b ∷ []));
          begun = (
            rest,
            same ∙ ap (λ l. c.popped ++ l) left ∙ sym (append_assoc c.popped (b ∷ []) rest),
          );
          held = i.held;
          within = omega (arith, i.within);
        }

    pub end-Counted :
        (c : Client B) (bs : List B)
        → Counted c
        → c.threads.running ≡ some bs
        → length c.popped ≡ length bs
        → Counted (record c { threads = end bs c.threads; popped = [] })
    unfolding step finish_call end
    end-Counted c bs i e sent =
        let u = c.threads in
        let taken : finish_call u.running u ≡ some (end bs u) = rw (e, finish_call) refl in
        let (others, same) = i.begun in
        let whole : bs ≡ c.popped ++ others = ap of_running (sym e) ∙ same in
        let none_left : length others ≡ 0 =
          omega (arith, ap (length {A = B}) whole, length-append c.popped others, sent) in
        let n : pending u ≡ sum size bs + (sum size (flat u.calls) + sum size u.blocks) =
          ap (λ r. sum size (of_running r) + (sum size (flat u.calls) + sum size u.blocks)) e in
        let parts : sum size bs ≡ sum size c.popped + sum size others =
          ap (sum size) whole ∙ sum-append c.popped others in
        let zero_left : sum size others ≡ 0 = sum_of_nothing others none_left in
        record {
          valid = step-IsValid Label.end_running u (end bs u) i.valid taken;
          counts = omega (arith, i.counts, n, parts, zero_left);
          begun = ([], refl);
          held =
              Held-kept c.waiting u (end bs u) refl
                (end-scheduled u.running u (end bs u) refl taken) i.held;
          within = i.within;
        }

    append-Counted :
        (b : B) (c : Client B)
        → IsValid c.threads
        → c.cache_size + sum size c.popped ≡ pending c.threads
        → ((rest : List B) × (of_running c.threads.running ≡ c.popped ++ rest))
        → c.cache_size ≤ max_cache_size
        → size b ≤ largest
        → Counted (append size b c)
    unfolding step append
    append-Counted b c v n begun room small =
        let u = c.threads in
        record {
          valid =
              step-IsValid (Label.write b) u (record u { blocks = u.blocks ++ (b ∷ []) }) v refl;
          counts = omega (arith, n, sum-append u.blocks (b ∷ []));
          begun = begun;
          held = tt;
          within = omega arith;
        }

    pub flush_lem :
        (c : Client B)
        → Counted c
        → IsValid (flush_queue size c).threads
          × ((flush_queue size c).cache_size + sum size (flush_queue size c).popped
              ≡ pending (flush_queue size c).threads)
    unfolding step flush_queue schedule_flush
    flush_lem c i =
        let u = c.threads in
        let more = sum-append (flat u.calls) (flat (u.blocks ∷ [])) in
        let last = sum-append u.blocks [] in
        let cut = ap (sum size) (flat-append u.calls (u.blocks ∷ [])) in
        (
          step-IsValid Label.flush u (schedule_flush u) i.valid refl,
          omega (arith, i.counts, more, last, cut),
        )

    -- The flush of a write that waits has taken every block, as the last call.
    waits :
        (b : B) (c : Client B)
        → Counted c
        → size b ≤ largest
        → Held (some (b, length (scheduled c.threads))) (flush_queue size c).threads
    unfolding step flush_queue schedule_flush
    waits b c i small =
        let u = c.threads in
        let order = step-scheduled Label.flush u (schedule_flush u) i.valid refl in
        let n = length-append (scheduled u) (u.blocks ∷ []) in
        (small, refl, ap length order ∙ n ∙ omega arith)

    pub begin_write-Counted :
        (b : B) (c : Client B)
        → Counted c
        → size b ≤ largest
        → Counted (begin_write size max_cache_size flush_threshold b c)
    unfolding begin_write flush_queue schedule_flush
    begin_write-Counted b c i small =
        let (v, n) = flush_lem c i in
        elim (Bool-cases (ltb max_cache_size c.cache_size)) [
          | inl full ↦
              rw (begin_write, full)
                (record {
                  valid = v;
                  counts = n;
                  begun = i.begun;
                  held = waits b c i small;
                  within = i.within;
                })
          | inr room ↦
              let below : c.cache_size ≤ max_cache_size = ground arith in
              elim (Bool-cases (ltb flush_threshold c.blocks_queue_size)) [
                | inl many ↦
                    rw (begin_write, room, many)
                      (append-Counted b (flush_queue size c) v n i.begun below small)
                | inr few ↦
                    rw (begin_write, room, few)
                      (append-Counted b c i.valid i.counts i.begun below small)
              ]
        ]

    all_ended :
        (s : Scheduler B) (k : ℕ)
        → length (scheduled s) ≡ suc k
        → k < length s.ended
        → (s.running ≡ none) × (s.calls ≡ [])
    all_ended s k n set =
        let lengths = length-append s.ended (listed s.running ++ s.calls) in
        let rest = length-append (listed s.running) s.calls in
        (
          none_of_listed s.running (omega (arith, n, set, lengths, rest)),
          nil_of_length s.calls (omega (arith, n, set, lengths, rest)),
        )

    -- When the promise of a waiting write is set, everything is uploaded.
    nothing_pending :
        (s : Scheduler B) (k : ℕ)
        → s.blocks ≡ []
        → length (scheduled s) ≡ suc k
        → k < length s.ended
        → pending s ≡ 0
    nothing_pending s k empty n set =
        let (free, none_left) = all_ended s k n set in rw (empty, free, none_left) refl

    pub resume-Counted :
        (b : B) (k : ℕ) (c : Client B)
        → Counted c
        → c.waiting ≡ some (b, k)
        → k < length c.threads.ended
        → Counted (append size b c)
    resume-Counted b k c i e set =
        let (small, empty, n) = subst (λ w. Held w c.threads) e i.held in
        let zero_left = nothing_pending c.threads k empty n set in
        append-Counted b c i.valid i.counts i.begun (omega (arith, i.counts, zero_left)) small
