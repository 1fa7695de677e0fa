-- ===== src/Config/Role.antt =====
-- The role of an accepted stack: it is run by the client or by the server.
use rsafe_fs.Base.{
  ℕ, ◌+◌, ◌≡◌, refl, ◌⊎◌, inl, inr, Bool, true, false, not, List, [], ◌∷◌, arith, if◌then◌else◌,
  Bool-cases,
}
use rsafe_fs.Config.{
  LayerConfig, ok, is_rpc_client, is_rpc_server, count_rpc, back_is, is_valid, is_client, is_server,
}

-- the number of layers of a stack that satisfy a test
count_of : (LayerConfig → Bool) → List LayerConfig → ℕ
count_of p [] = 0
count_of p (l ∷ ls) = (if p l then 1 else 0) + count_of p ls

not_both : (l : LayerConfig) → is_rpc_client l ≡ true → is_rpc_server l ≡ false
unfolding is_rpc_client is_rpc_server
not_both l h = ground arith

count_rpc-count_of :
    (ls : List LayerConfig) (clients servers : ℕ)
    → ((count_rpc ls (clients, servers)).0 ≡ clients + count_of is_rpc_client ls)
      × ((count_rpc ls (clients, servers)).1 ≡ servers + count_of is_rpc_server ls)
unfolding count_rpc count_of
count_rpc-count_of [] c s = (omega arith, omega arith)
count_rpc-count_of (l ∷ ls) c s = elim (Bool-cases (is_rpc_client l)) [
  | inl client ↦
      let (a, b) = count_rpc-count_of ls (c + 1) s in
      let other : is_rpc_server l ≡ false = not_both l client in (ground arith, ground arith)
  | inr no_client ↦ elim (Bool-cases (is_rpc_server l)) [
    | inl server ↦ let (a, b) = count_rpc-count_of ls c (s + 1) in (ground arith, ground arith)
    | inr neither ↦ let (a, b) = count_rpc-count_of ls c s in (ground arith, ground arith)
  ]
]

no_server :
    (ls : List LayerConfig)
    → count_of is_rpc_server ls ≡ 0
    → (is_client ls ≡ true) × (back_is is_rpc_server ls ≡ false)
unfolding count_of is_client back_is
no_server [] h = (refl, refl)
no_server (l ∷ []) h = elim (Bool-cases (is_rpc_server l)) [
  | inl server ↦ absurd (ground arith)
  | inr other ↦ rw other (refl, refl)
]
no_server (l ∷ m ∷ ls) h = elim (Bool-cases (is_rpc_server l)) [
  | inl server ↦ absurd (ground arith)
  | inr other ↦ rw other (no_server (m ∷ ls) (ground arith))
]

last_server : (ls : List LayerConfig) → back_is is_rpc_server ls ≡ true → is_client ls ≡ false
unfolding is_client back_is
last_server [] h = cc
last_server (l ∷ []) h = rw h refl
last_server (l ∷ m ∷ ls) h = elim (Bool-cases (is_rpc_server l)) [
  | inl server ↦ rw server refl
  | inr other ↦ rw other (last_server (m ∷ ls) h)
]

-- What the checks leave: servers are counted at most once, and one stands last.
valid_servers :
    (layers : List LayerConfig)
    → is_valid layers ≡ ok tt
    → (count_of is_rpc_server layers ≡ 0) ⊎ (back_is is_rpc_server layers ≡ true)
unfolding is_valid
valid_servers layers h = let (clients, servers) = count_rpc-count_of layers 0 0 in ground arith

-- A stack that passes the check is run either as a client or as a server, and not as both: the two
-- tests, which are computed in different ways, disagree.
pub is_client-is_server :
    (layers : List LayerConfig)
    → is_valid layers ≡ ok tt
    → is_client layers ≡ not (is_server layers)
unfolding is_server
is_client-is_server layers h = elim (valid_servers layers h) [
  | inl none_there ↦ let (a, b) = no_server layers none_there in ground arith
  | inr last ↦ let a = last_server layers last in ground arith
]
