-- ===== src/Tests/Files.antt =====
-- The roles of stacks, the read-ahead buffers, and a write to a system that accepts all.
use rsafe_fs.Base.{
  ℕ, ◌<◌, ◌≡◌, refl, not, Bool, true, false, List, [], ◌∷◌, some, pos, is_neg, is_some, length,
  ℕ_discrete,
}
use rsafe_fs.Base.Dict.{find}
use rsafe_fs.Fuse.{Request, ok_reply, zero_info, zero_stat, zero_statvfs}
use rsafe_fs.Fuse
use rsafe_fs.Config.{
  Kind, Mode, LayerConfig, ok, is_valid, is_client, is_server, count_rpc, front_is, back_is,
  is_empty, is_rpc_client, is_rpc_server,
}
use rsafe_fs.Config.Role.{is_client-is_server}
use rsafe_fs.DataCache.Correct.{slice, IsServed}
use rsafe_fs.ReadAhead.{Buffer}
use rsafe_fs.ReadAhead.Correct.{IsBuffered}
use rsafe_fs.ReadAhead.History.{Call, in_order, answers, run, IsStable, no_clock, run-answers}
use rsafe_fs.Local.{Syscall, Result, is_failed, local_write, write_at}
use rsafe_fs.Local.Durable.{local_write_durable}

abbrev layers : List LayerConfig
layers =
    record { kind = Kind.local; mode = Mode.passthrough }
    ∷ record { kind = Kind.rpc_server; mode = Mode.passthrough }
    ∷ []

layers_valid : is_valid layers ≡ ok tt
unfolding is_valid count_rpc front_is back_is is_empty is_rpc_client is_rpc_server
layers_valid = refl

is_client-is_server_example : is_client layers ≡ not (is_server layers)
is_client-is_server_example = is_client-is_server layers layers_valid

abbrev file : List ℕ
file = 10 ∷ 20 ∷ 30 ∷ 40 ∷ 50 ∷ []

unfoldable lower : Fuse.Layer ℕ ℕ
lower (Request.read p n (pos o) fi) s =
    (record ok_reply { res = pos (length (slice file n o)); buf = slice file n o }, s)
lower r s = (ok_reply, s)

lower-IsServed : IsServed file lower no_clock 0 (λ s. Unit {0})
unfolding lower
lower-IsServed = record {
  read_res = λ n o fi s h. refl;
  read_buf = λ n o fi s h. refl;
  read_holds = λ n o fi s h. tt;
  clock_holds = λ s h. tt;
}

lower-IsStable : IsStable file ℕ_discrete 4 lower 0 (λ s. Unit {0})
lower-IsStable = record {
  served = lower-IsServed;
  open_holds = λ fi s h. tt;
  release_holds = λ fi s h. tt;
}

abbrev calls : List Call
calls =
    Call.opens zero_info
    ∷ Call.reads 2 0 zero_info
    ∷ Call.reads 2 1 zero_info
    ∷ Call.reads 3 3 zero_info
    ∷ Call.releases zero_info
    ∷ []

in_order-calls : in_order (is_some {A = Buffer} (find ℕ_discrete 0 [])) calls ≡ true
unfolding in_order find
in_order-calls = refl

nothing : (b : Buffer) → find ℕ_discrete 0 [] ≡ some b → IsBuffered file b
unfolding find
nothing b e = cc

run-answers_example : run file ℕ_discrete 4 lower 0 calls ([], 3) ≡ answers file calls
run-answers_example =
    run-answers file ℕ_discrete 4 lower 0 (λ s. Unit {0}) lower-IsStable calls [] 3 in_order-calls
      nothing tt

-- A system that writes whatever it is given.
unfoldable system : Syscall ℕ → ℕ → Result × ℕ
system (Syscall.pwrite fd bytes offset) s = (
  record { res = pos (length bytes); errno = 0; stbuf = zero_stat; buf = []; vfs = zero_statvfs },
  s,
)
system call s =
    (record { res = pos 0; errno = 0; stbuf = zero_stat; buf = []; vfs = zero_statvfs }, s)

abbrev never : ℕ → Bool
never n = false

sets_errno :
    (call : Syscall ℕ) (s : ℕ)
    → is_failed (system call s).0.res ≡ true
    → 0 < (system call s).0.errno
unfolding system is_failed
sets_errno (Syscall.pwrite fd bytes offset) s h = cc
sets_errno call s h = cc

written :
    is_neg (local_write system (λ p. p) never never 1 (7 ∷ 8 ∷ []) (pos 0) (some zero_info) 0).0.res
    ≡ false
unfolding system is_failed local_write write_at
written = refl

local_write_durable_example :
    let reply =
      (local_write system (λ p. p) never never 1 (7 ∷ 8 ∷ []) (pos 0) (some zero_info) 0).0 in
    let (w, s₁) = system (Syscall.pwrite (pos 0) (7 ∷ 8 ∷ []) (pos 0)) 0 in
    let f = (system (Syscall.fsync (pos 0)) s₁).0 in
    (reply.res ≡ w.res) × (is_failed w.res ≡ false) × (is_failed f.res ≡ false)
local_write_durable_example =
    local_write_durable system (λ p. p) never never sets_errno 1 (7 ∷ 8 ∷ []) (pos 0) zero_info 0
      written
