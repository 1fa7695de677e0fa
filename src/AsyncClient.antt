-- ===== src/AsyncClient.antt =====
-- The buffered writes of include/rsafefs/fuse_rpc/grpc/async_client.hpp and
-- lib/fuse_rpc/grpc/async_client.cpp: the blocks that wait, and the call that uploads them. The
-- stream of gRPC is the sequence of actions on it, each of which completes.
pub mod Merge
pub mod Upload
pub mod Scheduler
pub mod Buffer
use rsafe_fs.Base.{
  ℕ, zero, suc, ◌+◌, ◌≤◌, Bool, true, false, ◌&&◌, List, [], ◌∷◌, ◌++◌, Option, none, some, ite,
  leb, ◌==◌, if◌then◌else◌, take, length,
}
use rsafe_fs.Fuse.{FileInfo}
use rsafe_fs.DataCache.{sub_size}

pub record Block (K : Type 0) : Type 0 where
  pub path : K
  pub buf : List ℕ
  pub size : ℕ
  pub offset : ℕ
  pub fi : FileInfo

-- the message `WriteRequest`
pub record WriteRequest (K : Type 0) : Type 0 where
  pub path : K
  pub offset : ℕ
  pub info : FileInfo
  pub buf : List ℕ
  pub size : ℕ

pub data CallStatus : Type 0 where
  create write writes_done finished : CallStatus

pub record CallData (K : Type 0) : Type 0 where
  pub blocks : List (Block K)
  pub cache_size : ℕ
  pub call_status : CallStatus
  pub n_blocks_sent : ℕ

-- What a step of the call does: an operation of the stream that will complete, or the end with its
-- promise's value. `undefined` is the front of an empty deque.
pub data Action (K : Type 0) : Type 0 where
  start_call : Action K
  write_block : WriteRequest K → Action K
  no_more_writes : Action K
  finish : Action K
  ended : Bool → Action K
  undefined : Action K

-- the comparison of the `fi_` fields
unfoldable pub same_info : FileInfo → FileInfo → Bool
same_info a b =
    (a.direct_io == b.direct_io)
    && (a.fh == b.fh)
    && (a.fh_old == b.fh_old)
    && (a.flags == b.flags)
    && (a.flock_release == b.flock_release)
    && (a.flush == b.flush)
    && (a.keep_cache == b.keep_cache)
    && (a.lock_owner == b.lock_owner)
    && (a.nonseekable == b.nonseekable)
    && (a.padding == b.padding)
    && (a.writepage == b.writepage)

module _ {K : Type 0} (dec : Discrete K) where
  unfoldable pub is_mergeable : Block K → Block K → Bool
  is_mergeable a b =
      ite (dec a.path b.path) ((a.offset + a.size == b.offset) && same_info a.fi b.fi) false

  module _ (max_block_size : ℕ) where
    -- the loop over `blocks_` from the second on: `n_blocks_sent_` and `bufSize`
    unfoldable pub merge : ℕ → ℕ → Block K → List (Block K) → ℕ × ℕ
    merge n size last [] = (n, size)
    merge n size last (b ∷ bs) =
        let rest = merge (n + 1) (size + b.size) b bs in
        if leb (size + b.size) max_block_size && is_mergeable last b then rest else (n, size)

    -- the `memcpy` of the blocks, one behind the other
    unfoldable pub gather : List (Block K) → List ℕ
    gather [] = []
    gather (b ∷ bs) = take b.size b.buf ++ gather bs

    -- what is sent first, and how many blocks it holds
    unfoldable pub send_block : List (Block K) → Option (WriteRequest K × ℕ)
    send_block [] = none
    send_block (first ∷ []) = some (
      record {
        path = first.path;
        offset = first.offset;
        info = first.fi;
        buf = take first.size first.buf;
        size = first.size;
      },
      1,
    )
    send_block (first ∷ second ∷ bs) =
        let (n, size) = merge 1 first.size first (second ∷ bs) in
        some (
          record {
            path = first.path;
            offset = first.offset;
            info = first.fi;
            buf = gather (take n (first ∷ second ∷ bs));
            size = size;
          },
          n,
        )

    -- the loop that pops the blocks that were sent
    unfoldable pub pop_sent : ℕ → List (Block K) → ℕ → Option (List (Block K) × ℕ)
    pop_sent zero bs size = some (bs, size)
    pop_sent (suc n) [] size = none
    pop_sent (suc n) (b ∷ bs) size = pop_sent n bs (sub_size size b.size)

    unfoldable pub send : CallData K → Action K × CallData K
    send cd = elim (send_block cd.blocks) [
      | none ↦ (undefined, cd)
      | some (request, n) ↦
          (write_block request, record cd { call_status = write; n_blocks_sent = n })
    ]

    unfoldable pub start : CallData K → Action K × CallData K
    start cd = elim cd.blocks [ [] ↦ (ended true, cd) | _ ∷ _ ↦ (start_call, cd) ]

    -- the case `WRITE`, behind its loop
    unfoldable pub after_write : CallData K → Action K × CallData K
    after_write cd = elim cd.blocks [
      | [] ↦ (no_more_writes, record cd { call_status = writes_done })
      | _ ∷ _ ↦ send cd
    ]

    -- `status_ok` is `status_.ok()`, which the stream's end sets.
    unfoldable pub proceed : Bool → CallData K → Action K × CallData K
    proceed status_ok cd = elim cd.call_status [
      | create ↦ elim cd.blocks [
        | [] ↦ (finish, record cd { call_status = finished })
        | _ ∷ _ ↦ send cd
      ]
      | write ↦ elim (pop_sent cd.n_blocks_sent cd.blocks cd.cache_size) [
        | none ↦ (undefined, cd)
        | some (blocks, size) ↦
            after_write (record cd { blocks = blocks; cache_size = size; n_blocks_sent = 0 })
      ]
      | writes_done ↦ (finish, record cd { call_status = finished })
      | finished ↦ (ended status_ok, cd)
    ]

    -- The call with every operation of its stream completed in turn: the requests that were written,
    -- and how it ended, with the size of the cache; `none` if it is undefined or out of fuel.
    unfoldable pub run :
        Bool → ℕ → Action K × CallData K → List (WriteRequest K) × Option (Bool × ℕ)
    run status_ok zero (a, cd) = ([], none)
    run status_ok (suc fuel) (ended b, cd) = ([], some (b, cd.cache_size))
    run status_ok (suc fuel) (undefined, cd) = ([], none)
    run status_ok (suc fuel) (write_block request, cd) =
        let (rs, e) = run status_ok fuel (proceed status_ok cd) in (request ∷ rs, e)
    run status_ok (suc fuel) (a, cd) = run status_ok fuel (proceed status_ok cd)

    -- `call_data(…)` on the blocks that wait
    abbrev pub call_data : List (Block K) → ℕ → CallData K
    call_data blocks cache_size = record {
      blocks = blocks;
      cache_size = cache_size;
      call_status = create;
      n_blocks_sent = 0;
    }

    -- Each round sends a block at least, so their number and five is fuel enough.
    abbrev pub upload : Bool → List (Block K) → ℕ → List (WriteRequest K) × Option (Bool × ℕ)
    upload status_ok blocks cache_size =
        run status_ok (length blocks + 5) (start (call_data blocks cache_size))
