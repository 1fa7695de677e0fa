-- ===== src/Tests/Async.antt =====
-- The threads of the asynchronous client: two writes, a flush, a third write and a flush while the first
-- call is under way.
use rsafe_fs.Base.{true, none, arith, ℕ, ◌+◌, ◌≤◌, ◌≡◌, refl, List, [], ◌∷◌, ◌++◌, some, length}
use rsafe_fs.AsyncClient.Scheduler.{
  Event, Scheduler, Label, idle, step, schedule_flush, receive, handle_event, start_next,
  start_call, end, finish_call,
}
use rsafe_fs.AsyncClient.Scheduler.Order.{IsValid}
use rsafe_fs.AsyncClient.Scheduler.Runs.{run, writes, work, all_blocks, flat, of_running}
use rsafe_fs.AsyncClient.Scheduler.Rest.{run-IsValid, run-internal, run-rest}
use rsafe_fs.AsyncClient.Scheduler.Promise.{flush_promise}
use rsafe_fs.AsyncClient.Buffer.{
  Client, Act, fresh, append, flush_queue, begin_write, write_when, resume_when, flush_when,
  take_when, pop_when, pop_next, end_when, act,
}
use rsafe_fs.AsyncClient.Buffer as Buffer
use rsafe_fs.AsyncClient.Buffer.Bound.{run-bounded}
use rsafe_fs.AsyncClient.Buffer.Counted.{pending}

abbrev begun : List (Label ℕ)
begun =
    Label.write 1
    ∷ Label.write 2
    ∷ Label.flush
    ∷ Label.take_event
    ∷ Label.write 3
    ∷ Label.flush
    ∷ []

abbrev internal : List (Label ℕ)
internal =
    Label.take_event ∷ Label.end_running ∷ Label.take_event ∷ Label.end_running ∷ Label.take_event
    ∷ []

-- the first call is under way, and the second waits
abbrev middle : Scheduler ℕ
middle = record idle {
  calls = (3 ∷ []) ∷ [];
  running = some (1 ∷ 2 ∷ []);
  channel = Event.flush_request ∷ [];
  flushing = true;
}

abbrev resting : Scheduler ℕ
resting = record idle { ended = (1 ∷ 2 ∷ []) ∷ (3 ∷ []) ∷ [] }

run-begun : run begun idle ≡ some middle
unfolding run step schedule_flush receive handle_event start_next start_call end finish_call
run-begun = refl

run-middle : run internal middle ≡ some resting
unfolding run step schedule_flush receive handle_event start_next start_call end finish_call
run-middle = refl

run-all : run (begun ++ internal) idle ≡ some resting
unfolding run step schedule_flush receive handle_event start_next start_call end finish_call
run-all = refl

run-IsValid_example : IsValid middle × (all_blocks middle ≡ writes begun)
run-IsValid_example = run-IsValid begun middle run-begun

run-internal_example : length internal + work resting ≤ work middle
run-internal_example =
    run-internal begun internal middle resting run-begun (refl, (refl, (refl, (refl, (refl, tt)))))
      run-middle

run-rest_example :
    (resting.calls ≡ []) × (flat resting.ended ++ resting.blocks ≡ writes (begun ++ internal))
unfolding step receive finish_call
run-rest_example = run-rest (begun ++ internal) resting run-all refl refl

-- a flush behind two writes, whose promise is set while a third write waits
abbrev two_written : Scheduler ℕ
two_written = record idle { blocks = 1 ∷ 2 ∷ [] }

abbrev behind : List (Label ℕ)
behind = Label.take_event ∷ Label.write 3 ∷ Label.end_running ∷ []

abbrev promised : Scheduler ℕ
promised = record idle {
  blocks = 3 ∷ [];
  ended = (1 ∷ 2 ∷ []) ∷ [];
  channel = Event.call_ended ∷ [];
  flushing = true;
}

run-two_written : run (Label.write 1 ∷ Label.write 2 ∷ []) idle ≡ some two_written
unfolding run step
run-two_written = refl

run-behind : run behind (schedule_flush two_written) ≡ some promised
unfolding run step schedule_flush receive handle_event start_next start_call end finish_call
run-behind = refl

flush_promise_example :
    (others : List ℕ) × (flat promised.ended
      ≡ writes (Label.write 1 ∷ Label.write 2 ∷ []) ++ others)
flush_promise_example =
    flush_promise (Label.write 1 ∷ Label.write 2 ∷ []) behind two_written promised run-two_written
      run-behind (omega arith)

-- The cache of 4 bytes is full at the third write, which waits until the first two are uploaded.
abbrev acts : List (Act ℕ)
acts =
    Act.write 3
    ∷ Act.write 4
    ∷ Act.write 2
    ∷ Act.take_event
    ∷ Act.pop_block
    ∷ Act.end_running
    ∷ Act.take_event
    ∷ Act.take_event
    ∷ Act.pop_block
    ∷ Act.end_running
    ∷ Act.resume
    ∷ []

abbrev resumed : Client ℕ
resumed = record {
  threads = record idle {
    blocks = 2 ∷ [];
    ended = (3 ∷ []) ∷ (4 ∷ []) ∷ [];
    channel = Event.call_ended ∷ [];
    flushing = true;
  };
  blocks_queue_size = 2;
  cache_size = 2;
  popped = [];
  waiting = none;
}

run-acts : Buffer.run (λ n. n) 4 1 acts fresh ≡ some resumed
unfolding Buffer.run act write_when resume_when take_when pop_when pop_next end_when begin_write
    append flush_queue schedule_flush receive handle_event start_next start_call end
run-acts = refl

run-bounded_example :
    (resumed.cache_size + Buffer.sum (λ n. n) resumed.popped ≡ pending (λ n. n) resumed.threads)
    × ((rest : List ℕ) × (of_running resumed.threads.running ≡ resumed.popped ++ rest))
    × (resumed.cache_size ≤ 4 + 4)
run-bounded_example =
    run-bounded (λ n. n) 4 1 4 acts resumed
      (
        omega arith,
        (omega arith, (omega arith, (tt, (tt, (tt, (tt, (tt, (tt, (tt, (tt, tt)))))))))),
      )
      run-acts
