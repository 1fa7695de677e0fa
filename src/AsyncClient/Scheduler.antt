-- ===== src/AsyncClient/Scheduler.antt =====
-- The scheduler of the asynchronous client (lib/fuse_rpc/grpc/async_client.cpp, `scheduler`,
-- `schedule_flush`, `call_data::start`, `call_data::end`) and the channel that it reads
-- (include/rsafefs/fuse_rpc/grpc/channel.hpp). The threads are labels of steps: those on the blocks and
-- on the channel hold a mutex. `call_data::end` sends its event and then sets its promise without one,
-- and is one step here: whoever sees the promise set, sees the event sent. A call is the blocks that it
-- uploads.
pub mod Order
pub mod Runs
pub mod Rest
pub mod Promise
use rsafe_fs.Base.{ℕ, Bool, true, false, List, [], ◌∷◌, ◌++◌, Option, none, some, if◌then◌else◌}

pub data Event : Type 0 where
  terminated : Event
  call_ended : Event
  flush_request : Event

-- `running` is the call whose stream is under way, and `ended` are the calls whose promise is set.
pub record Scheduler (B : Type 0) : Type 0 where
  pub blocks : List B
  pub calls : List (List B)
  pub running : Option (List B)
  pub ended : List (List B)
  pub channel : List Event
  pub flushing : Bool
  pub stopped : Bool

abbrev pub idle : {B : Type 0} → Scheduler B
idle = record {
  blocks = [];
  calls = [];
  running = none;
  ended = [];
  channel = [];
  flushing = false;
  stopped = false;
}

module _ {B : Type 0} where
  -- `channel::send`
  abbrev pub send : Event → Scheduler B → Scheduler B
  send e s = record s { channel = s.channel ++ (e ∷ []) }

  -- `call_data::end`
  unfoldable pub end : List B → Scheduler B → Scheduler B
  end c s = send Event.call_ended (record s { running = none; ended = s.ended ++ (c ∷ []) })

  -- `call_data::start`: a call without blocks ends at once.
  unfoldable pub start_call : List B → Scheduler B → Scheduler B
  start_call [] s = end [] s
  start_call (b ∷ bs) s = record s { running = some (b ∷ bs) }

  -- The first call that waits is taken out and started, if there is one.
  unfoldable pub start_next : List (List B) → Scheduler B → Scheduler B
  start_next [] s = s
  start_next (c ∷ cs) s = record (start_call c (record s { calls = cs })) { flushing = true }

  -- the cases of the loop
  unfoldable pub handle_event : Event → Scheduler B → Scheduler B
  handle_event Event.call_ended s = start_next s.calls (record s { flushing = false })
  handle_event Event.flush_request s = if s.flushing then s else start_next s.calls s
  handle_event Event.terminated s = elim s.channel [
    | [] ↦ record s { stopped = true }
    | _ ∷ _ ↦ send Event.terminated s
  ]

  -- `channel::receive` and the rest of a round; it waits while the channel is empty.
  unfoldable pub receive : List Event → Scheduler B → Option (Scheduler B)
  receive [] s = none
  receive (e ∷ es) s = if s.stopped then none else some (handle_event e (record s { channel = es }))

  -- `schedule_flush`: the blocks move into a new call, whose promise it returns.
  unfoldable pub schedule_flush : Scheduler B → Scheduler B
  schedule_flush s =
      send Event.flush_request (record s { blocks = []; calls = s.calls ++ (s.blocks ∷ []) })

  -- The last completion of the stream under way.
  unfoldable pub finish_call : Option (List B) → Scheduler B → Option (Scheduler B)
  finish_call none s = none
  finish_call (some c) s = some (end c s)

-- What the threads do: a write appends its block; a flush comes of a threshold, of the timer or of a
-- call of `flush` or `fsync`; the scheduler takes an event; a completion queue's thread ends a call.
pub data Label (B : Type 0) : Type 0 where
  write : B → Label B
  flush : Label B
  take_event : Label B
  end_running : Label B

unfoldable pub step : {B : Type 0} → Label B → Scheduler B → Option (Scheduler B)
step (Label.write b) s = some (record s { blocks = s.blocks ++ (b ∷ []) })
step Label.flush s = some (schedule_flush s)
step Label.take_event s = receive s.channel s
step Label.end_running s = finish_call s.running s
