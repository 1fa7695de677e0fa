-- ===== src/AsyncClient/Buffer.antt =====
-- The writes of the asynchronous client (`write`, `flush` and `fsync` of lib/fuse_rpc/grpc/async_client.cpp)
-- on top of its scheduler: the sizes that they count, and the thresholds at which they flush. `mtx_blocks_`
-- is held for the whole of a write, also while it waits for a flush; the call under way takes its blocks
-- off the size of the cache one by one, between the steps of the others; sizes are those of `size_t`, which the
-- bound on the cache keeps from wrapping.
pub mod Counted
pub mod Bound
use rsafe_fs.Base.{
  ℕ, ◌+◌, ◌-◌, List, [], ◌∷◌, ◌++◌, length, Bool, true, false, ltb, ◌==◌, drop, Option, none, some,
  if◌then◌else◌,
}
use rsafe_fs.AsyncClient.Scheduler.{Scheduler, idle, end, receive, schedule_flush}
use rsafe_fs.AsyncClient.Scheduler.Promise.{scheduled}

-- `popped` are the blocks of the call under way that its requests have sent and taken off
-- `cache_size_`; `waiting` is the write that waits for the promise of a flush, and the number of that
-- call.
pub record Client (B : Type 0) : Type 0 where
  pub threads : Scheduler B
  pub blocks_queue_size : ℕ
  pub cache_size : ℕ
  pub popped : List B
  pub waiting : Option (B × ℕ)

abbrev pub fresh : {B : Type 0} → Client B
fresh = record {
  threads = idle;
  blocks_queue_size = 0;
  cache_size = 0;
  popped = [];
  waiting = none;
}

pub data Act (B : Type 0) : Type 0 where
  write : B → Act B
  resume : Act B
  flush : Act B
  take_event : Act B
  pop_block : Act B
  end_running : Act B

module _ {B : Type 0} (size : B → ℕ) where
  abbrev pub sum : List B → ℕ
  sum [] = 0
  sum (b ∷ bs) = size b + sum bs

  -- the end of a write: its block is kept and counted
  unfoldable pub append : B → Client B → Client B
  append b c = record {
    threads = record c.threads { blocks = c.threads.blocks ++ (b ∷ []) };
    blocks_queue_size = c.blocks_queue_size + size b;
    cache_size = c.cache_size + size b;
    popped = c.popped;
    waiting = none;
  }

  -- `schedule_flush`, with the size of the queue
  unfoldable pub flush_queue : Client B → Client B
  flush_queue c = record c { threads = schedule_flush c.threads; blocks_queue_size = 0 }

  unfoldable pub resume_when : Option (B × ℕ) → Client B → Option (Client B)
  resume_when none c = none
  resume_when (some (b, k)) c = if ltb k (length c.threads.ended) then some (append b c) else none

  unfoldable pub flush_when : Option (B × ℕ) → Client B → Option (Client B)
  flush_when none c = some (flush_queue c)
  flush_when (some w) c = none

  unfoldable pub take_when : Option (Scheduler B) → Client B → Option (Client B)
  take_when none c = none
  take_when (some s) c = some (record c { threads = s })

  -- A turn of the loop of `call_data::proceed` behind a request: the next block is taken off the size of
  -- the cache, which the other threads see at once.
  unfoldable pub pop_next : List B → Client B → Option (Client B)
  pop_next [] c = none
  pop_next (b ∷ bs) c =
      some (record c { popped = c.popped ++ (b ∷ []); cache_size = c.cache_size - size b })

  unfoldable pub pop_when : Option (List B) → Client B → Option (Client B)
  pop_when none c = none
  pop_when (some bs) c = pop_next (drop (length c.popped) bs) c

  -- A call ends once its blocks are sent.
  unfoldable pub end_when : Option (List B) → Client B → Option (Client B)
  end_when none c = none
  end_when (some bs) c =
      if length c.popped == length bs
      then some (record c { threads = end bs c.threads; popped = [] })
      else none

  module _ (max_cache_size flush_threshold : ℕ) where
    unfoldable pub begin_write : B → Client B → Client B
    begin_write b c =
        if ltb max_cache_size c.cache_size
        then record (flush_queue c) { waiting = some (b, length (scheduled c.threads)) }
        else if ltb flush_threshold c.blocks_queue_size
        then append b (flush_queue c)
        else append b c

    unfoldable pub write_when : Option (B × ℕ) → B → Client B → Option (Client B)
    write_when none b c = some (begin_write b c)
    write_when (some w) b c = none

    -- What each thread can do; a write that waits keeps out the others that take `mtx_blocks_`, until
    -- its promise is set.
    unfoldable pub act : Act B → Client B → Option (Client B)
    act (Act.write b) c = write_when c.waiting b c
    act Act.resume c = resume_when c.waiting c
    act Act.flush c = flush_when c.waiting c
    act Act.take_event c = take_when (receive c.threads.channel c.threads) c
    act Act.pop_block c = pop_when c.threads.running c
    act Act.end_running c = end_when c.threads.running c

    unfoldable pub run : List (Act B) → Client B → Option (Client B)
    run [] c = some c
    run (a ∷ as₀) c = elim (act a c) [ none ↦ none | some d ↦ run as₀ d ]
