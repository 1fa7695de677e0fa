-- ===== src/AsyncClient/Upload.antt =====
-- What reaches the server, byte by byte: the calls of `proceed` of
-- lib/fuse_rpc/grpc/async_client.cpp, to the end of the stream.
use rsafe_fs.Base.{ℕ, ◌+◌, ◌-◌, ◌≡◌, Bool, List, [], ◌∷◌, Option, some}
use rsafe_fs.AsyncClient.{Block, WriteRequest, CallData, CallStatus}
use rsafe_fs.AsyncClient.Merge.{of_blocks, of_requests}

-- The bytes of the blocks, as `cache_size_` counts them.
unfoldable pub total : {K : Type 0} → List (Block K) → ℕ
total [] = 0
total (b ∷ bs) = b.size + total bs

module _ {K : Type 0} (dec : Discrete K) (max_block_size : ℕ) where
  -- An upload of blocks: the requests ask for their bytes in order, and it ends with the status of
  -- the stream and the bytes taken off the count.
  abbrev IsUploaded : Bool → List (Block K) → ℕ → List (WriteRequest K) × Option (Bool × ℕ) → Type 0
  IsUploaded status_ok blocks cache_size (requests, end) =
      (of_requests requests ≡ of_blocks blocks)
      × (end ≡ some (status_ok, cache_size - total blocks))

  abbrev sending : List (Block K) → ℕ → ℕ → CallData K
  sending blocks cache_size n = record {
    blocks = blocks;
    cache_size = cache_size;
    call_status = CallStatus.write;
    n_blocks_sent = n;
  }
