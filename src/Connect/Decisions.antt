-- ===== src/Connect/Decisions.antt =====
-- What a client does with the address it has stored: `get_internal_connect` and its neighbours of
-- src/helpers/internal_client.rs, over the store of src/helpers/connection_store.rs and the
-- addresses of src/helpers/server_sender.rs.
use atomic_websocket.Base.{
  ℕ, ◌^◌, ◌<◌, ◌≡◌, refl, ap, sym, ◌∙◌, Text, codes, true, false, not, if◌then◌else◌, Option, none,
  some, [], ◌∷◌, is_empty, length, contains, if-true, if-false,
}
use atomic_websocket.Runtime.Channel.{Channel}
use atomic_websocket.Runtime.Database.{Database}
use atomic_websocket.Schema.{Primitives, ServerConnectInfo}
use atomic_websocket.Schema.Codecs.{ArePrimitives}
use atomic_websocket.Address.{to_ws_url, parse_port, valid_port}
use atomic_websocket.Address.Url.{to_ws_url-scheme, to_ws_url_idem}
use atomic_websocket.Options.{ClientOptions}
use atomic_websocket.Store.{get_server_connect_info}
use atomic_websocket.Store.Identity.{
  IsHealthy, get-set_server_connect_info, get-clear_server_ip, cleared,
}
use atomic_websocket.Sender.{
  SenderStatus, connecting, disconnected, dial_internal, is_valid_server_ip, is_need_connect,
}
use atomic_websocket.Sender.Persist.{Session, add, remove_ip_if_valid_server_ip}
use atomic_websocket.Connect.{
  done, sender_status, spawn_task, try_acquire, get_outer_connect, get_internal_connect, begin_scan,
  route, reserve, scan_and_connect,
}

nonempty : (xs : Text) → contains xs (codes "://") ≡ true → is_empty xs ≡ false
unfolding contains
nonempty [] h = sym h
nonempty (x ∷ xs) h = refl

module _ (S : Channel SenderStatus) (C : Channel Text) (D : Database) (P : Primitives) where
  -- No attempt is under way, and no message came lately.
  pub record IsIdle (now : ℕ) (w : Session S C D P) : Type 0 where
    pub not_trying : w.sender.is_try_connect ≡ false
    pub not_valid : is_valid_server_ip S C now w.sender ≡ false

  -- While an attempt is under way no call starts another, sends a status or touches the store.
  pub all_calls-busy :
      (now now' : ℕ) (local_ip port : Text) (input : Option ServerConnectInfo)
      (options : ClientOptions) (w : Session S C D P)
      → w.sender.is_try_connect ≡ true
      → (get_internal_connect S C D P now local_ip input options w ≡ done w)
        × (get_outer_connect S C D P now now' options w ≡ w)
        × (scan_and_connect S C D P now local_ip port w ≡ (false, done w))
        × (try_acquire S C D P w ≡ none)
  unfolding get_internal_connect get_outer_connect scan_and_connect try_acquire is_need_connect
  all_calls-busy now now' local_ip port input options w h =
      (if-true _ _ _ h, if-true _ _ _ h, if-true _ _ _ (ap (λ b. not (not b)) h), if-true _ _ _ h)

  module _ (now : ℕ) (local_ip : Text) (options : ClientOptions) where
    -- The guards of `get_internal_connect` do not stop an idle client.
    idle-route :
        (input : Option ServerConnectInfo) (v : Session S C D P)
        → IsIdle now v
        → get_internal_connect S C D P now local_ip input options v
          ≡ route S C D P local_ip options input
              (get_server_connect_info D P v.db)
              (reserve S C D P input (get_server_connect_info D P v.db) v)
    unfolding get_internal_connect
    idle-route input v i = if-false _ _ _ i.not_trying ∙ if-false _ _ _ i.not_valid

    -- What a connection was made to is what an idle client dials next without an input, whatever it
    -- did in between, as long as the store is the one that the connection left: the URL that
    -- `to_ws_url` made is persisted by `add`, read back, and made again without a change, if every
    -- transaction of the database goes through and URL and port are short enough to be written.
    pub get_internal_connect-add :
        (A : ArePrimitives P) (H : IsHealthy D) (host port : Text) (sx : ℕ) (w v : Session S C D P)
        → IsIdle now v
        → v.db ≡ (add S C D P sx (to_ws_url host port) w).db
        → length (to_ws_url host port) < 2 ^ 32
        → length (parse_port (to_ws_url host port)) < 2 ^ 32
        → get_internal_connect S C D P now local_ip none options v
          ≡ done (
              spawn_task S C D P
                (dial_internal (to_ws_url host port) options)
                (sender_status S C D P connecting v))
    unfolding add
    get_internal_connect-add A H host port sx w v i e l k =
        let url = to_ws_url host port in
        let stored : get_server_connect_info D P v.db ≡ some (url, parse_port url) =
          ap (get_server_connect_info D P) e
          ∙ get-set_server_connect_info D H P A url (parse_port url) w.db l k in
        idle-route none v i
        ∙ ap (λ o. route S C D P local_ip options none o v) stored
        ∙ if-false _ _ _ (nonempty url (to_ws_url-scheme host port))
        ∙ ap
            (λ u.
              done
                (spawn_task S C D P (dial_internal u options) (sender_status S C D P connecting v)))
            (to_ws_url_idem host port (parse_port url))

    -- After a dial that failed the address is forgotten and the port is kept, if every transaction
    -- of the database goes through and the port is short enough to be written: an idle client then
    -- only says `disconnected`, unless discovery is enabled, when it scans for the stored port, or
    -- for none if that is no run of digits.
    pub get_internal_connect-remove_ip_if_valid_server_ip :
        (A : ArePrimitives P) (H : IsHealthy D) (server_ip port : Text) (w v : Session S C D P)
        → IsIdle now v
        → v.db ≡ (remove_ip_if_valid_server_ip S C D P w).db
        → get_server_connect_info D P w.db ≡ some (server_ip, port)
        → length port < 2 ^ 32
        → get_internal_connect S C D P now local_ip none options v ≡ (
            if options.use_scan_discovery
            then begin_scan S C D P local_ip (valid_port port) v
            else done (sender_status S C D P disconnected v))
    unfolding remove_ip_if_valid_server_ip
    get_internal_connect-remove_ip_if_valid_server_ip A H server_ip port w v i e h k =
        idle-route none v i
        ∙ ap (λ o. route S C D P local_ip options none o v)
            (ap (get_server_connect_info D P) e
              ∙ get-clear_server_ip D H P A w.db (rw h k)
              ∙ ap (cleared D H P A) h)
