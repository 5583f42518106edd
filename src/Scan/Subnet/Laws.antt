-- ===== src/Scan/Subnet/Laws.antt =====
-- Which addresses a scan of src/helpers/scan_manager.rs tries.
use atomic_websocket.Base.{
  ℕ, zero, suc, ◌+◌, ◌<◌, ◌≤◌, ◌≡◌, ◌≢◌, refl, ap, sym, ◌∙◌, Text, codes, none, some, List, [], ◌∷◌,
  ◌++◌, append_assoc, map, length, arith,
}
use atomic_websocket.Runtime.Table.{Table}
use atomic_websocket.Address.{parse_port}
use atomic_websocket.Address.Port.{IsPort, NoColon, parse_port-colon}
use atomic_websocket.Connect.Stream.{before_colon}
use atomic_websocket.Connect.Stream.Peer.{before_colon-append}
use atomic_websocket.Scan.{ConnectionState, ScanManager}
use atomic_websocket.Scan.Subnet.{
  split_dot, decimal, range, scan_ip, subnet, with_concurrency, manager,
}

-- The text holds no dot.
abbrev pub NoDot : Text → Type 0
NoDot [] = Unit {0}
NoDot (c ∷ s) = (c ≢ b'.') × NoDot s

split_dot-append :
    (piece rest : Text) → NoDot piece → split_dot (piece ++ b'.' ∷ rest) ≡ piece ∷ split_dot rest
unfolding split_dot
split_dot-append [] rest h = refl
split_dot-append (c ∷ piece) rest h = ground (arith, split_dot-append piece rest h.1)

split_dot_one : (piece : Text) → NoDot piece → split_dot piece ≡ piece ∷ []
unfolding split_dot
split_dot_one [] h = refl
split_dot_one (c ∷ piece) h = ground (arith, split_dot_one piece h.1)

decimal-NoColon : (n : ℕ) → n < 1000 → NoColon (decimal n)
unfolding decimal
decimal-NoColon n h = ground arith

decimal-eq : (m n : ℕ) → m < 1000 → n < 1000 → decimal m ≡ decimal n → m ≡ n
unfolding decimal
decimal-eq m n a b e = ground arith

cancel_front : (s t u : Text) → s ++ t ≡ s ++ u → t ≡ u
cancel_front [] t u e = e
cancel_front (c ∷ s) t u e = cancel_front s t u cc

cancel_piece : (s t u : Text) → s ++ b'.' ∷ t ≡ s ++ b'.' ∷ u → t ≡ u
cancel_piece s t u e = cancel_front (b'.' ∷ []) t u (cancel_front s (b'.' ∷ t) (b'.' ∷ u) e)

-- Two numbers below 1000 have two addresses.
scan_ip-eq :
    (a b c port : Text) (m n : ℕ)
    → m < 1000
    → n < 1000
    → scan_ip a b c port m ≡ scan_ip a b c port n
    → m ≡ n
unfolding scan_ip
scan_ip-eq a b c port m n h k e =
    let last : decimal m ++ b':' ∷ port ≡ decimal n ++ b':' ∷ port =
      cancel_piece c _ _
        (cancel_piece b _ _ (cancel_piece a _ _ (cancel_front (codes "ws://") _ _ e))) in
    decimal-eq m n h k (
      sym (before_colon-append (decimal m) port (decimal-NoColon m h))
      ∙ ap before_colon last
      ∙ before_colon-append (decimal n) port (decimal-NoColon n k))

scan_ip-port : (a b c port : Text) (n : ℕ) → IsPort port → parse_port (scan_ip a b c port n) ≡ port
unfolding scan_ip
scan_ip-port a b c port n h =
    let host = codes "ws://" ++ (a ++ b'.' ∷ (b ++ b'.' ∷ (c ++ b'.' ∷ decimal n))) in
    let same : codes "ws://" ++ (a ++ b'.' ∷ (b ++ b'.' ∷ (c ++ b'.' ∷ (decimal n ++ b':' ∷ port))))
        ≡ host ++ b':' ∷ port =
      simp append_assoc in
    ap parse_port same ∙ parse_port-colon host port h

abbrev pub All {ℓ} : {A : Type ℓ} → (A → Type 0) → List A → Type 0
All P [] = Unit {0}
All P (x ∷ xs) = P x × All P xs

-- No text stands twice.
abbrev pub Distinct : List Text → Type 0
Distinct [] = Unit {0}
Distinct (x ∷ xs) = All (λ y. x ≢ y) xs × Distinct xs

module _ (a b c port : Text) where
  abbrev ips : ℕ → ℕ → List Text
  ips n count = map (scan_ip a b c port) (range n count)

  ips-length : (n count : ℕ) → length (ips n count) ≡ count
  ips-length n zero = refl
  ips-length n (suc count) = ap suc (ips-length (suc n) count)

  ips-ports : (n count : ℕ) → IsPort port → All (λ u. parse_port u ≡ port) (ips n count)
  ips-ports n zero h = tt
  ips-ports n (suc count) h = (scan_ip-port a b c port n h, ips-ports (suc n) count h)

  ips-others :
      (m n count : ℕ) → m < n → n + count ≤ 1000 → All (λ u. scan_ip a b c port m ≢ u) (ips n count)
  ips-others m n zero h k = tt
  ips-others m n (suc count) h k = (
    λ e. absurd (omega (arith, scan_ip-eq a b c port m n (omega arith) (omega arith) e)),
    ips-others m (suc n) count (omega arith) (omega arith),
  )

  ips-Distinct : (n count : ℕ) → n + count ≤ 1000 → Distinct (ips n count)
  ips-Distinct n zero k = tt
  ips-Distinct n (suc count) k = (
    ips-others n (suc n) count (omega arith) (omega arith),
    ips-Distinct (suc n) count (omega arith),
  )

module _ (T : Table ConnectionState) where
  -- A scan from a local address of four parts, for a port that is a run of digits, has 254
  -- addresses, no two of them the same, each with that port, and all its permits.
  pub with_concurrency_lem :
      (a b c d port : Text) (max_concurrent : ℕ)
      → NoDot a
      → NoDot b
      → NoDot c
      → IsPort port
      → (s : ScanManager T) × (with_concurrency T
            (a ++ b'.' ∷ (b ++ b'.' ∷ (c ++ b'.' ∷ d)))
            port
            max_concurrent
          ≡ some s)
        × (length s.scan_ips ≡ 254)
        × Distinct s.scan_ips
        × All (λ u. parse_port u ≡ port) s.scan_ips
        × (s.permits ≡ max_concurrent)
  unfolding with_concurrency
  with_concurrency_lem a b c d port max_concurrent ha hb hc hp =
      let pieces : split_dot (a ++ b'.' ∷ (b ++ b'.' ∷ (c ++ b'.' ∷ d))) ≡ a ∷ b ∷ c ∷ split_dot d =
        split_dot-append a _ ha
        ∙ ap (λ t. a ∷ t) (split_dot-append b _ hb ∙ ap (λ t. b ∷ t) (split_dot-append c _ hc)) in
      (
        _,
        ap (λ t. manager T max_concurrent (subnet port t)) pieces,
        ips-length a b c port 1 254,
        ips-Distinct a b c port 1 254 (omega arith),
        ips-ports a b c port 1 254 hp,
        refl,
      )

  -- A local address of less than three parts makes the constructor panic.
  with_concurrency-panics :
      (a b port : Text) (max_concurrent : ℕ)
      → NoDot a
      → NoDot b
      → with_concurrency T (a ++ b'.' ∷ b) port max_concurrent ≡ none
  unfolding with_concurrency
  with_concurrency-panics a b port max_concurrent ha hb =
      ap (λ t. manager T max_concurrent (subnet port t))
        (split_dot-append a b ha ∙ ap (λ t. a ∷ t) (split_dot_one b hb))
