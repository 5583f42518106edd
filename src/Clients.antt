-- ===== src/Clients.antt =====
-- src/helpers/client_sender.rs: the server's registry of connected clients. An operation is
-- modelled without other tasks between its steps; `Clients/Race` has the interleavings. The clock is
-- an argument, and so is what becomes of a message that is handed to a connection's channel.
pub mod Registry
pub mod Gauge
pub mod Sending
pub mod Expiry
pub mod History
pub mod Growth
pub mod Race
pub mod Inbox
pub mod Delivered
use atomic_websocket.Base.{
  ℕ, suc, ◌+◌, Text, text_eq, Bool, true, false, not, ◌||◌, if◌then◌else◌, Option, none, some,
  is_some, List, [], ◌∷◌, ◌++◌, length, filter, map, is_empty, add64, le_i64,
}
use atomic_websocket.Runtime.Channel.{Channel}
use atomic_websocket.Runtime.Table.{Table, get}
use atomic_websocket.Message.{Outgoing, disconnect, expired}
use atomic_websocket.Metrics.{Metrics}
use atomic_websocket.Metrics
use atomic_websocket.Options.{ServerOptions, default_server_options}
use atomic_websocket.Spillover.{Fate, dropped, Buffers, offer}

-- `sx` is the channel of the connection's writer task, by a number of its own.
pub record ClientSender : Type 0 where
  pub sx : ℕ
  pub send_time : ℕ

-- `send_timeout` and `timeout(.., send(..))`: queued, no room in time, or the receiver is gone.
pub data Delivery : Type 0 where
  delivered timed_out closed : Delivery

-- What becomes of the messages that are handed to each channel while an operation runs.
abbrev pub Network : Type 0
Network = ℕ → Delivery

-- `(Vec<u8>, String)`.
abbrev pub HandlerMessage : Type 0
HandlerMessage = Text × Text

abbrev count_new : Bool → Metrics → Metrics
count_new replacing m = if replacing then m else Metrics.inc_connections_active m

abbrev pub hand : Delivery → ℕ → Outgoing → List (ℕ × Outgoing) → List (ℕ × Outgoing)
hand delivered sx m handed = handed ++ (sx, m) ∷ []
hand timed_out sx m handed = handed
hand closed sx m handed = handed

-- The notice to a connection that is replaced is best effort.
abbrev notify : Network → Text → Option ClientSender → List (ℕ × Outgoing) → List (ℕ × Outgoing)
notify network peer none handed = handed
notify network peer (some previous) handed =
    hand (network previous.sx) previous.sx (disconnect peer) handed

abbrev count_dropped : Fate → Metrics → Metrics
count_dropped dropped m = Metrics.inc_messages_dropped m
count_dropped _ m = m

-- The closure of `retain`, and the decrement that it makes for each entry that it refuses.
abbrev pub in_time : ℕ → ℕ → Text → ClientSender → Bool
in_time now timeout peer client = le_i64 now (add64 client.send_time timeout)

abbrev count_refused : (Text → ClientSender → Bool) → List (Text × ClientSender) → Metrics → Metrics
count_refused keep [] m = m
count_refused keep ((peer, client) ∷ es) m =
    count_refused keep es (if keep peer client then m else Metrics.dec_connections_active m)

-- `HashSet::contains` on the set of a slice of texts.
abbrev pub mem : Text → List Text → Bool
mem peer [] = false
mem peer (p ∷ ps) = text_eq p peer || mem peer ps

abbrev pub keys : List (Text × ClientSender) → List Text
keys [] = []
keys ((peer, client) ∷ es) = peer ∷ keys es

module _ (T : Table ClientSender) (C : Channel HandlerMessage) where
  pub record ClientSenders : Type 0 where
    pub clients : T.Map
    -- The messages that the connections' channels have taken, with the channel, oldest first.
    pub handed : List (ℕ × Outgoing)
    pub buffers : Buffers C
    -- The receiver is still there to be taken.
    pub handle_message_rx : Bool
    pub options : ServerOptions
    pub metrics : Metrics
    pub spillover_buffer_size : ℕ

  -- `c` is `mpsc::channel(handler_buffer_size)`.
  unfoldable pub new_with_buffer_size : C.Chan → ℕ → ClientSenders
  new_with_buffer_size c spillover_buffer_size = record {
    clients = T.empty;
    handed = [];
    buffers = record { channel = c; spillover = [] };
    handle_message_rx = true;
    options = default_server_options;
    metrics = Metrics.new;
    spillover_buffer_size = spillover_buffer_size;
  }

  unfoldable pub add : ℕ → Network → Text → ℕ → ClientSenders → ClientSenders
  add now network peer sx s =
      let replacing = is_some (get T s.clients peer) in
      record s {
        handed = notify network peer (get T s.clients peer) s.handed;
        clients = T.insert s.clients peer (record { sx = sx; send_time = now });
        metrics = count_new replacing (Metrics.inc_connections_total s.metrics);
      }

  unfoldable pub get_handle_message_receiver : ClientSenders → Bool × ClientSenders
  get_handle_message_receiver s = (s.handle_message_rx, record s { handle_message_rx = false })

  unfoldable pub set_options : ServerOptions → ClientSenders → ClientSenders
  set_options options s = record s { options = options }

  unfoldable pub send_handle_message : Text → Text → ClientSenders → ClientSenders
  send_handle_message bytes peer s =
      let r = offer C s.spillover_buffer_size s.buffers (bytes, peer) in
      record s {
        buffers = r.1;
        metrics = count_dropped r.0 (Metrics.inc_messages_received s.metrics);
      }

  unfoldable pub check_client_send_time : ℕ → ClientSenders → ClientSenders
  check_client_send_time now s =
      let keep = in_time now s.options.client_timeout_seconds in
      record s {
        clients = T.retain s.clients keep;
        metrics = count_refused keep (T.iter s.clients) s.metrics;
      }

  unfoldable pub remove : Text → ClientSenders → ClientSenders
  remove peer s = record s {
    clients = T.remove s.clients peer;
    metrics =
        if is_some (get T s.clients peer)
        then Metrics.dec_connections_active s.metrics
        else s.metrics;
  }

  abbrev touch : ℕ → Text → Option ClientSender → T.Map → T.Map
  touch now peer none m = m
  touch now peer (some client) m = T.insert m peer (record client { send_time = now })

  -- `get_mut`, and the entry is written back in place.
  unfoldable pub write_time : ℕ → Text → ClientSenders → ClientSenders
  write_time now peer s = record s { clients = touch now peer (get T s.clients peer) s.clients }

  abbrev sent_to : Delivery → ℕ → Outgoing → ClientSenders → Bool × ClientSenders
  sent_to delivered sx m s = (
    true,
    record s {
      handed = hand delivered sx m s.handed;
      metrics = Metrics.inc_messages_sent s.metrics;
    },
  )
  sent_to timed_out sx m s = (false, record s { metrics = Metrics.inc_send_errors s.metrics })
  sent_to closed sx m s = (false, record s { metrics = Metrics.inc_send_errors s.metrics })

  abbrev send_to : Network → Outgoing → Option ClientSender → ClientSenders → Bool × ClientSenders
  send_to network m none s = (false, s)
  send_to network m (some client) s = sent_to (network client.sx) client.sx m s

  -- `ClientSenders::send`.
  unfoldable pub send : Network → Text → Outgoing → ClientSenders → Bool × ClientSenders
  send network peer m s = send_to network m (get T s.clients peer) s

  abbrev after_send : ℕ → Text → Bool × ClientSenders → ClientSenders
  after_send now peer (true, s) = write_time now peer s
  after_send now peer (false, s) = remove peer s

  -- `<RwClientSenders as ClientSendersTrait>::send`.
  unfoldable pub send_and_track :
      ℕ → Network → Text → Outgoing → ClientSenders → Bool × ClientSenders
  send_and_track now network peer m s =
      ((send network peer m s).0, after_send now peer (send network peer m s))

  abbrev pub is_active : Text → ClientSenders → Bool
  is_active peer s = is_some (get T s.clients peer)

  abbrev pub len : ClientSenders → ℕ
  len s = length (T.iter s.clients)

  unfoldable pub peers : ClientSenders → List Text
  peers s = keys (T.iter s.clients)

  unfoldable pub peers_except : List Text → ClientSenders → List Text
  peers_except valid s = filter (λ peer. not (mem peer valid)) (keys (T.iter s.clients))

  unfoldable pub peers_in : List Text → ClientSenders → List Text
  peers_in target s = filter (λ peer. mem peer target) (keys (T.iter s.clients))

  -- `join_all`, or a `for` with `await`: the sends in the order of the list.
  unfoldable pub send_each : ℕ → Network → Outgoing → List Text → ClientSenders → ClientSenders
  send_each now network m [] s = s
  send_each now network m (peer ∷ ps) s =
      send_each now network m ps (send_and_track now network peer m s).1

  unfoldable pub send_all : ℕ → Network → Outgoing → ClientSenders → ClientSenders
  send_all now network m s = send_each now network m (peers s) s

  unfoldable pub send_message_in_list :
      ℕ → Network → List Text → Outgoing → ClientSenders → ClientSenders
  send_message_in_list now network peer_list m s = send_each now network m (peers_in peer_list s) s

  unfoldable pub send_all_in_list :
      ℕ → Network → List Text → Outgoing → ClientSenders → ClientSenders
  send_all_in_list now network peer_list m s = send_each now network m (peers_in peer_list s) s

  unfoldable pub expire_send : ℕ → Network → List Text → ClientSenders → ClientSenders
  expire_send now network peer_list s = send_each now network expired (peers_except peer_list s) s
