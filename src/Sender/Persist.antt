-- ===== src/Sender/Persist.antt =====
-- The methods of src/helpers/server_sender.rs that also write the connection store: the sender and
-- the store change one after the other, each under its own lock.
use atomic_websocket.Base.{ℕ, Text}
use atomic_websocket.Runtime.Channel.{Channel}
use atomic_websocket.Runtime.Database.{Database}
use atomic_websocket.Schema.{Primitives}
use atomic_websocket.Address.{parse_port}
use atomic_websocket.Store.{set_server_connect_info, clear_server_ip}
use atomic_websocket.Sender.{SenderStatus, ServerSender}
use atomic_websocket.Sender

module _ (S : Channel SenderStatus) (C : Channel Text) (D : Database) (P : Primitives) where
  open D use {Db}

  -- `RwServerSender` with the store that it holds.
  pub record Session : Type 0 where
    pub sender : ServerSender S C
    pub db : Db

  -- `<RwServerSender as ServerSenderTrait>::add`.
  unfoldable pub add : ℕ → Text → Session → Session
  add sx server_ip w = record {
    sender = Sender.add S C sx server_ip w.sender;
    db = set_server_connect_info D P server_ip (parse_port server_ip) w.db;
  }

  -- The address in the argument is not used.
  unfoldable pub remove_ip_if_valid_server_ip : Session → Session
  remove_ip_if_valid_server_ip w = record {
    sender = Sender.remove_ip S C w.sender;
    db = clear_server_ip D P w.db;
  }
