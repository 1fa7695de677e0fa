-- ===== src/AsyncClient/Scheduler/Order.antt =====
-- The scheduler loses no call, runs one at a time, in order, and never sleeps on one.
use rsafe_fs.Base.{
  subst, ℕ, ◌+◌, ◌≤◌, ◌<◌, ◌≡◌, refl, sym, ap, ◌∙◌, ◌⊎◌, inl, inr, arith, Bool, true, false, List,
  [], ◌∷◌, ◌++◌, Option, none, some, length, Bool-cases,
}
use rsafe_fs.AsyncClient.Scheduler.{
  Event, Scheduler, end, start_call, start_next, handle_event, receive, schedule_flush, finish_call,
  Label, step,
}

-- the events of each kind that are on their way
abbrev pub ended_events : List Event → ℕ
ended_events [] = 0
ended_events (Event.call_ended ∷ es) = ended_events es + 1
ended_events (e ∷ es) = ended_events es

abbrev pub flush_events : List Event → ℕ
flush_events [] = 0
flush_events (Event.flush_request ∷ es) = flush_events es + 1
flush_events (e ∷ es) = flush_events es

abbrev pub stop_events : List Event → ℕ
stop_events [] = 0
stop_events (Event.terminated ∷ es) = stop_events es + 1
stop_events (e ∷ es) = stop_events es

ended_events-append :
    (es fs : List Event) → ended_events (es ++ fs) ≡ ended_events es + ended_events fs
ended_events-append [] fs = omega arith
ended_events-append (Event.terminated ∷ es) fs = ended_events-append es fs
ended_events-append (Event.call_ended ∷ es) fs = omega (arith, ended_events-append es fs)
ended_events-append (Event.flush_request ∷ es) fs = ended_events-append es fs

flush_events-append :
    (es fs : List Event) → flush_events (es ++ fs) ≡ flush_events es + flush_events fs
flush_events-append [] fs = omega arith
flush_events-append (Event.terminated ∷ es) fs = flush_events-append es fs
flush_events-append (Event.call_ended ∷ es) fs = flush_events-append es fs
flush_events-append (Event.flush_request ∷ es) fs = omega (arith, flush_events-append es fs)

stop_events-append : (es fs : List Event) → stop_events (es ++ fs) ≡ stop_events es + stop_events fs
stop_events-append [] fs = omega arith
stop_events-append (Event.terminated ∷ es) fs = omega (arith, stop_events-append es fs)
stop_events-append (Event.call_ended ∷ es) fs = stop_events-append es fs
stop_events-append (Event.flush_request ∷ es) fs = stop_events-append es fs

abbrev pub as_number : Bool → ℕ
as_number true = 1
as_number false = 0

as_number-le : (b : Bool) → as_number b ≤ 1
as_number-le true = omega arith
as_number-le false = omega arith

module _ {B : Type 0} where
  abbrev pub under_way : Option (List B) → ℕ
  under_way none = 0
  under_way (some c) = 1

  -- `flushing` says that a call is under way or its end is on its way to the scheduler, and there is
  -- only one of these; a call that waits is woken by the end of another or by a request to flush.
  pub record IsValid (s : Scheduler B) : Type 0 where
    pub busy : ended_events s.channel + under_way s.running ≡ as_number s.flushing
    pub awake : (length s.calls ≡ 0) ⊎ (0 < as_number s.flushing + flush_events s.channel)
    pub no_stop : stop_events s.channel ≡ 0
    pub on : s.stopped ≡ false

  -- What has to hold while the scheduler looks for the next call: none is under way.
  record IsFree (s : Scheduler B) : Type 0 where
    nothing_ended : ended_events s.channel ≡ 0
    nothing_runs : s.running ≡ none
    no_stop : stop_events s.channel ≡ 0
    on : s.stopped ≡ false

  start_next-IsValid :
      (cs : List (List B)) (s : Scheduler B)
      → s.calls ≡ cs
      → IsFree s
      → s.flushing ≡ false
      → IsValid (start_next cs s)
  unfolding start_next start_call end
  start_next-IsValid [] s e f idle_now = record {
    busy = rw (f.nothing_runs, idle_now) (omega (arith, f.nothing_ended));
    awake = inl (ap length e);
    no_stop = f.no_stop;
    on = f.on;
  }
  start_next-IsValid ([] ∷ cs) s e f idle_now = record {
    busy = omega (arith, ended_events-append s.channel (Event.call_ended ∷ []), f.nothing_ended);
    awake = inr (omega arith);
    no_stop = omega (arith, stop_events-append s.channel (Event.call_ended ∷ []), f.no_stop);
    on = f.on;
  }
  start_next-IsValid ((b ∷ bs) ∷ cs) s e f idle_now = record {
    busy = omega (arith, f.nothing_ended);
    awake = inr (omega arith);
    no_stop = f.no_stop;
    on = f.on;
  }

  none_of_zero : (r : Option (List B)) → under_way r ≡ 0 → r ≡ none
  none_of_zero none h = refl
  none_of_zero (some c) h = absurd (omega arith)

  -- What the scheduler does with the event that it takes.
  pub taken :
      (e : Event) (es : List Event) (s t : Scheduler B)
      → s.stopped ≡ false
      → receive (e ∷ es) s ≡ some t
      → handle_event e (record s { channel = es }) ≡ t
  unfolding receive
  taken e es s t on r =
      let h : receive (e ∷ es) s ≡ some (handle_event e (record s { channel = es })) =
        rw (receive, on) refl in
      let same : some (handle_event e (record s { channel = es })) ≡ some t = sym h ∙ r in cc

  -- No call is under way when the end of one arrives, nor while `flushing` is not set.
  pub ended_free :
      (es : List Event) (s : Scheduler B)
      → s.channel ≡ Event.call_ended ∷ es
      → IsValid s
      → (ended_events es ≡ 0) × (s.running ≡ none)
  ended_free es s e v =
      let n : ended_events s.channel ≡ ended_events es + 1 = ap ended_events e in
      let le : as_number s.flushing ≤ 1 = as_number-le s.flushing in
      (omega (arith, n, le, v.busy), none_of_zero s.running (omega (arith, n, le, v.busy)))

  pub idle_free :
      (s : Scheduler B)
      → s.flushing ≡ false
      → IsValid s
      → (ended_events s.channel ≡ 0) × (s.running ≡ none)
  idle_free s idle_now v =
      let zero_now : as_number s.flushing ≡ 0 = ap as_number idle_now in
      (omega (arith, zero_now, v.busy), none_of_zero s.running (omega (arith, zero_now, v.busy)))

  ended-IsValid :
      (es : List Event) (s : Scheduler B)
      → s.channel ≡ Event.call_ended ∷ es
      → IsValid s
      → IsValid (handle_event Event.call_ended (record s { channel = es }))
  unfolding handle_event
  ended-IsValid es s e v =
      start_next-IsValid s.calls (record s { channel = es; flushing = false }) refl
        (record {
          nothing_ended = (ended_free es s e v).0;
          nothing_runs = (ended_free es s e v).1;
          no_stop = ap stop_events (sym e) ∙ v.no_stop;
          on = v.on;
        })
        refl

  flush-IsValid :
      (es : List Event) (s : Scheduler B)
      → s.channel ≡ Event.flush_request ∷ es
      → IsValid s
      → IsValid (handle_event Event.flush_request (record s { channel = es }))
  unfolding handle_event
  flush-IsValid es s e v =
      let n : ended_events s.channel ≡ ended_events es = ap ended_events e in
      let m : stop_events es ≡ 0 = ap stop_events (sym e) ∙ v.no_stop in
      elim (Bool-cases s.flushing) [
        | inl busy_now ↦
            rw (handle_event, busy_now)
              (record {
                busy = omega (arith, n, ap as_number busy_now, v.busy);
                awake = inr (omega arith);
                no_stop = m;
                on = v.on;
              })
        | inr idle_now ↦
            rw (handle_event, idle_now)
              (start_next-IsValid s.calls (record s { channel = es; flushing = false }) refl
                (record {
                  nothing_ended = omega (arith, n, (idle_free s idle_now v).0);
                  nothing_runs = (idle_free s idle_now v).1;
                  no_stop = m;
                  on = v.on;
                })
                refl)
      ]

  receive-IsValid :
      (es : List Event) (s t : Scheduler B)
      → s.channel ≡ es
      → IsValid s
      → receive es s ≡ some t
      → IsValid t
  unfolding receive
  receive-IsValid [] s t e v r = cc
  receive-IsValid (Event.terminated ∷ es) s t e v r =
      let n : stop_events s.channel ≡ stop_events es + 1 = ap stop_events e in
      absurd (omega (arith, n, v.no_stop))
  receive-IsValid (Event.call_ended ∷ es) s t e v r =
      subst IsValid (taken Event.call_ended es s t v.on r) (ended-IsValid es s e v)
  receive-IsValid (Event.flush_request ∷ es) s t e v r =
      subst IsValid (taken Event.flush_request es s t v.on r) (flush-IsValid es s e v)

  finish_call-IsValid :
      (r : Option (List B)) (s t : Scheduler B)
      → s.running ≡ r
      → IsValid s
      → finish_call r s ≡ some t
      → IsValid t
  unfolding finish_call end
  finish_call-IsValid none s t e v r = cc
  finish_call-IsValid (some c) s t e v r =
      let same : end c s ≡ t = cc in
      let one : under_way s.running ≡ 1 = ap under_way e in
      let le : as_number s.flushing ≤ 1 = as_number-le s.flushing in
      subst IsValid same (record {
        busy = omega (arith, one, v.busy, ended_events-append s.channel (Event.call_ended ∷ []));
        awake = inr (omega (arith, one, v.busy));
        no_stop = omega (arith, v.no_stop, stop_events-append s.channel (Event.call_ended ∷ []));
        on = v.on;
      })

  pub step-IsValid : (l : Label B) (s t : Scheduler B) → IsValid s → step l s ≡ some t → IsValid t
  unfolding step schedule_flush
  step-IsValid (Label.write b) s t v r =
      let same : record s { blocks = s.blocks ++ (b ∷ []) } ≡ t = cc in
      subst IsValid same (record { busy = v.busy; awake = v.awake; no_stop = v.no_stop; on = v.on })
  step-IsValid Label.flush s t v r =
      let same : schedule_flush s ≡ t = cc in
      let sent = Event.flush_request ∷ [] in
      subst IsValid same (record {
        busy = omega (arith, v.busy, ended_events-append s.channel sent);
        awake = inr (omega (arith, flush_events-append s.channel sent));
        no_stop = omega (arith, v.no_stop, stop_events-append s.channel sent);
        on = v.on;
      })
  step-IsValid Label.take_event s t v r = receive-IsValid s.channel s t refl v r
  step-IsValid Label.end_running s t v r = finish_call-IsValid s.running s t refl v r

  -- What the start of a call keeps is kept by every event that the scheduler takes.
  pub receive-keeps {ℓ} :
      {A : Type ℓ} (f : Scheduler B → A)
      → ((s : Scheduler B) (es : List Event) (b : Bool)
          → f (record s { channel = es; flushing = b }) ≡ f s)
      → ((cs : List (List B)) (s : Scheduler B)
          → s.calls ≡ cs
          → s.running ≡ none
          → f (start_next cs s) ≡ f s)
      → (es : List Event) (s t : Scheduler B) → s.channel ≡ es
      → IsValid s
      → receive es s ≡ some t
      → f t ≡ f s
  unfolding receive handle_event
  receive-keeps f moves starts [] s t e v r = cc
  receive-keeps f moves starts (Event.terminated ∷ es) s t e v r =
      let n : stop_events s.channel ≡ stop_events es + 1 = ap stop_events e in
      absurd (omega (arith, n, v.no_stop))
  receive-keeps f moves starts (Event.call_ended ∷ es) s t e v r =
      let s' : Scheduler B = record s { channel = es; flushing = false } in
      ap f (sym (taken Event.call_ended es s t v.on r))
      ∙ starts s.calls s' refl (ended_free es s e v).1
      ∙ moves s es false
  receive-keeps f moves starts (Event.flush_request ∷ es) s t e v r =
      let s' : Scheduler B = record s { channel = es; flushing = false } in
      let kept : f (handle_event Event.flush_request (record s { channel = es })) ≡ f s =
        elim (Bool-cases s.flushing) [
          | inl busy_now ↦
              let left : handle_event Event.flush_request (record s { channel = es })
                  ≡ record s { channel = es } =
                rw (handle_event, busy_now) refl in
              ap f left ∙ moves s es s.flushing
          | inr idle_now ↦
              let started : handle_event Event.flush_request (record s { channel = es })
                  ≡ start_next s.calls s' =
                rw (handle_event, idle_now) refl in
              ap f started ∙ starts s.calls s' refl (idle_free s idle_now v).1 ∙ moves s es false
        ] in
      ap f (sym (taken Event.flush_request es s t v.on r)) ∙ kept

  -- The call under way stays so while the scheduler takes its events.
  pub receive-running :
      (bs : List B) (es : List Event) (s t : Scheduler B)
      → s.channel ≡ es
      → IsValid s
      → s.running ≡ some bs
      → receive es s ≡ some t
      → t.running ≡ some bs
  unfolding receive handle_event
  receive-running bs [] s t e v h r = cc
  receive-running bs (Event.terminated ∷ es) s t e v h r =
      let n : stop_events s.channel ≡ stop_events es + 1 = ap stop_events e in
      absurd (omega (arith, n, v.no_stop))
  receive-running bs (Event.call_ended ∷ es) s t e v h r =
      let free : s.running ≡ none = (ended_free es s e v).1 in absurd cc
  receive-running bs (Event.flush_request ∷ es) s t e v h r = elim (Bool-cases s.flushing) [
    | inl busy_now ↦
        let left : handle_event Event.flush_request (record s { channel = es })
            ≡ record s { channel = es } =
          rw (handle_event, busy_now) refl in
        ap (λ (u : Scheduler B). u.running) (sym (taken Event.flush_request es s t v.on r) ∙ left)
        ∙ h
    | inr idle_now ↦ let free : s.running ≡ none = (idle_free s idle_now v).1 in absurd cc
  ]
