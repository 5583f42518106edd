-- ===== src/Sender/Validity.antt =====
-- When src/helpers/server_sender.rs takes its connection for alive, and what replacing or removing
-- the address leaves behind.
use atomic_websocket.Base.{
  ℕ, ◌+◌, ◌*◌, ◌^◌, ◌<◌, max, ◌≡◌, ◌≢◌, ◌↔◌, refl, Text, Bool, true, false, Option, none, some,
  List, [], ◌∷◌, ◌++◌, arith, is_empty, ◌==◌, if◌then◌else◌, not, if-true, if-false, ◌&&◌, ◌⊎◌, inl,
  inr, ap, ap₂, sym, ◌∙◌, lt_i64, add64, mul64, append-nil,
}
use atomic_websocket.Runtime.Channel.{Channel}
use atomic_websocket.Sender.{
  SenderStatus, Task, farewell, ServerSender, drop_old, sx_drop, add, remove_ip, is_valid_server_ip,
  write_received_times,
}

abbrev doubled : ℕ → ℕ
doubled n = mul64 (if n == 0 then 1 else n) 2

doubled_lem : (n : ℕ) → n < 2 ^ 60 → doubled n ≡ 2 * max n 1
doubled_lem n h = ground arith

deadline_iff :
    (now t d : ℕ)
    → now < 2 ^ 63
    → t < 2 ^ 62
    → d < 2 ^ 62
    → (lt_i64 now (add64 t d) ≡ true) ↔ (now < t + d)
deadline_iff now t d a b c = ground arith

cons-nil : (x : ℕ) (xs : Text) → x ∷ xs ≢ []
cons-nil x xs = ground arith

guarded_iff : (xs : Text) (b : Bool) → ((not (is_empty xs) && b) ≡ true) ↔ ((xs ≢ []) × (b ≡ true))
guarded_iff [] b = ground arith
guarded_iff (x ∷ xs) b = (λ h. (cons-nil x xs, h), λ h. h.1)

empty_cases : (xs : Text) → (xs ≡ []) ⊎ (xs ≢ [])
empty_cases [] = inl refl
empty_cases (x ∷ xs) = inr (cons-nil x xs)

is_empty-false : (xs : Text) → xs ≢ [] → is_empty xs ≡ false
is_empty-false [] h = absurd (h refl)
is_empty-false (x ∷ xs) h = refl

module _ (S : Channel SenderStatus) (C : Channel Text) where
  -- Within the range of the clock, the address counts as alive exactly if there is one and the last
  -- message came less than twice `retry_seconds` ago, with 0 read as 1.
  pub is_valid_server_ip_iff :
      (now : ℕ) (s : ServerSender S C)
      → now < 2 ^ 63
      → s.server_received_times < 2 ^ 62
      → s.options.retry_seconds < 2 ^ 60
      → (is_valid_server_ip S C now s ≡ true)
        ↔ ((s.server_ip ≢ []) × (now < s.server_received_times + 2 * max s.options.retry_seconds 1))
  unfolding is_valid_server_ip
  is_valid_server_ip_iff now s a b c =
      let alive = guarded_iff s.server_ip _ in
      let time =
        deadline_iff now s.server_received_times (2 * max s.options.retry_seconds 1) a b
          (omega arith) in
      rw (doubled_lem s.options.retry_seconds c)
        (λ h. ((alive.0 h).0, time.0 (alive.0 h).1), λ (e, l). alive.1 (e, time.1 l))

  -- Right after a message was received, an address counts as alive.
  pub is_valid_server_ip-write_received_times :
      (now : ℕ) (s : ServerSender S C)
      → now < 2 ^ 62
      → s.options.retry_seconds < 2 ^ 60
      → s.server_ip ≢ []
      → is_valid_server_ip S C now (write_received_times S C now s) ≡ true
  unfolding write_received_times
  is_valid_server_ip-write_received_times now s a c e =
      (is_valid_server_ip_iff now (write_received_times S C now s) (omega arith) a c).1
        (e, omega arith)

  abbrev farewells_to : Option ℕ → Text → List Task
  farewells_to none server_ip = []
  farewells_to (some sx) server_ip = farewell sx server_ip ∷ []

  abbrev pub farewells : ServerSender S C → List Task
  farewells s = farewells_to s.sx s.server_ip

  replaced :
      (o o' : Option ℕ) (server_ip : Text) (s : ServerSender S C)
      → Path
          (ServerSender S C)
          (record (drop_old S C o s) { sx = o'; server_ip = server_ip })
          (record s {
            sx = o';
            server_ip = server_ip;
            spawned = s.spawned ++ farewells_to o s.server_ip;
          })
  replaced none o' server_ip s =
      ap (λ t. record s { sx = o'; server_ip = server_ip; spawned = t })
        (sym (append-nil s.spawned))
  replaced (some sx) o' server_ip s = refl

  cut_off :
      (o : Option ℕ) (s : ServerSender S C)
      → s.sx ≡ o
      → Path
          (ServerSender S C)
          (record (drop_old S C o s) { server_ip = [] })
          (record s {
            sx = none;
            server_ip = [];
            spawned = s.spawned ++ farewells_to o s.server_ip;
          })
  cut_off none s e =
      ap₂ (λ (o : Option ℕ) (t : List Task). record s { sx = o; server_ip = []; spawned = t }) e
        (sym (append-nil s.spawned))
  cut_off (some sx) s e = refl

  -- A new connection replaces the old one: the old writer, if there is one, is sent one farewell,
  -- under the address that the old connection had, and nothing else changes.
  pub add_lem :
      (sx : ℕ) (server_ip : Text) (s : ServerSender S C)
      → add S C sx server_ip s
        ≡ record s { sx = some sx; server_ip = server_ip; spawned = s.spawned ++ farewells s }
  unfolding add sx_drop
  add_lem sx server_ip s = replaced s.sx (some sx) server_ip s

  -- Removing drops the address and the connection, with the same farewell; where there is no
  -- address nothing happens, even if there is a connection. Removing twice is removing once.
  pub remove_ip_lem :
      (s : ServerSender S C)
      → (remove_ip S C s ≡ (
          if is_empty s.server_ip
          then s
          else record s { sx = none; server_ip = []; spawned = s.spawned ++ farewells s }))
        × (remove_ip S C (remove_ip S C s) ≡ remove_ip S C s)
  unfolding remove_ip sx_drop
  remove_ip_lem s = (
    ap (λ t. if is_empty s.server_ip then s else t) (cut_off s.sx s refl),
    elim (empty_cases s.server_ip) [
      | inl e ↦ kept (remove_ip S C s) (ap (λ (t : ServerSender S C). t.server_ip) (kept s e) ∙ e)
      | inr h ↦ kept (remove_ip S C s) (
          ap (λ (t : ServerSender S C). t.server_ip)
            (if-false _ _ _ (is_empty-false s.server_ip h)))
    ],
  )
    where
      kept : (t : ServerSender S C) → t.server_ip ≡ [] → remove_ip S C t ≡ t
      kept t e = if-true _ _ _ (ap is_empty e)
