-- ===== src/Scan/Subnet.antt =====
-- The addresses of a scan: `ScanManager::with_concurrency` of src/helpers/scan_manager.rs. The local
-- address is an argument; `none` stands for the panic of an index out of range.
pub mod Laws
use atomic_websocket.Base.{
  ℕ, zero, suc, ◌+◌, ◌*◌, ◌/◌, ◌%◌, ◌<◌, ◌≤◌, ◌≡◌, refl, ap, sym, ◌∙◌, Text, codes, Bool, true,
  false, not, ◌==◌, ltb, if◌then◌else◌, Option, none, some, List, [], ◌∷◌, ◌++◌, all, map, length,
  arith,
}
use atomic_websocket.Runtime.Table.{Table}
use atomic_websocket.Scan.{ConnectionState, ScanManager}

abbrev onto_first : ℕ → List Text → List Text
onto_first c [] = []
onto_first c (piece ∷ pieces) = (c ∷ piece) ∷ pieces

-- `split('.')`
unfoldable pub split_dot : Text → List Text
split_dot [] = [] ∷ []
split_dot (c ∷ s) =
    let pieces = split_dot s in if c == b'.' then [] ∷ pieces else onto_first c pieces

-- `{}` of a number below 1000.
unfoldable pub decimal : ℕ → Text
decimal n =
    if ltb n 10
    then (b'0' + n) ∷ []
    else if ltb n 100
    then (b'0' + n / 10) ∷ (b'0' + n % 10) ∷ []
    else (b'0' + n / 100) ∷ (b'0' + n / 10 % 10) ∷ (b'0' + n % 10) ∷ []

-- `n..n + count`
abbrev pub range : ℕ → ℕ → List ℕ
range n zero = []
range n (suc count) = n ∷ range (suc n) count

-- The format of an address.
unfoldable pub scan_ip : Text → Text → Text → Text → ℕ → Text
unfolding decimal
scan_ip a b c port sub_ip =
    codes "ws://" ++ (a ++ b'.' ∷ (b ++ b'.' ∷ (c ++ b'.' ∷ (decimal sub_ip ++ b':' ∷ port))))

abbrev pub subnet : Text → List Text → Option (List Text)
subnet port (a ∷ b ∷ c ∷ rest) = some (map (scan_ip a b c port) (range 1 254))
subnet port _ = none

module _ (T : Table ConnectionState) where
  abbrev pub manager : ℕ → Option (List Text) → Option (ScanManager T)
  manager max_concurrent none = none
  manager max_concurrent (some scan_ips) = some (record {
    scan_ips = scan_ips;
    connection_states = T.empty;
    permits = max_concurrent;
    stop_flag = false;
  })

  unfoldable pub with_concurrency : Text → Text → ℕ → Option (ScanManager T)
  with_concurrency ip port max_concurrent = manager max_concurrent (subnet port (split_dot ip))

  -- `new`, with DEFAULT_MAX_CONCURRENT_CONNECTIONS.
  unfoldable pub new : Text → Text → Option (ScanManager T)
  unfolding with_concurrency
  new ip port = with_concurrency ip port 50
