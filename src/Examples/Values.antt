-- ===== src/Examples/Values.antt =====
-- The values that the examples of the other files here share: tables, channels, codecs and a
-- database that meet the laws of the interfaces, and small states over them.
use atomic_websocket.Base.{
  ℕ, ◌≡◌, refl, Text, codes, true, false, ◌==◌, if◌then◌else◌, Option, none, some, List, [], ◌∷◌,
  ◌++◌, ◌+◌, length, arith,
}
use atomic_websocket.Runtime.Channel.{Channel}
use atomic_websocket.Runtime.Table.{Table}
use atomic_websocket.Runtime.Database.{Settings, ok}
use atomic_websocket.Runtime.Lists.{ListChan, list_channel, list_table}
use atomic_websocket.Runtime.Bytes.{
  int, int-IsCodec, bool, bool-IsCodec, array, array-IsCodec, write, int-length, array-length,
  bool-length,
}
use atomic_websocket.Runtime.Rows.{find, row_database}
use atomic_websocket.Schema.{Primitives}
use atomic_websocket.Schema.Sizes.{Sizes, ping_size}
use atomic_websocket.Schema.Codecs.{ArePrimitives}
use atomic_websocket.Options.{default_client_options}
use atomic_websocket.Store.{get_setting_by_key, set_setting}
use atomic_websocket.Store.Identity.{IsHealthy}
use atomic_websocket.Clients.{
  ClientSender, delivered, closed, Network, HandlerMessage, ClientSenders, new_with_buffer_size,
  add,
}
use atomic_websocket.Sender.{SenderStatus, ServerSender}
use atomic_websocket.Sender
use atomic_websocket.Sender.Persist.{Session}

abbrev pub primitives : Primitives
primitives = record {
  u8 = int 1;
  u16 = int 2;
  u32 = int 4;
  i32 = int 4;
  bool = bool;
  str = array;
  slice = array;
}

pub primitives-ArePrimitives : ArePrimitives primitives
primitives-ArePrimitives = record {
  u8 = int-IsCodec 1;
  u16 = int-IsCodec 2;
  u32 = int-IsCodec 4;
  i32 = int-IsCodec 4;
  bool = bool-IsCodec;
  str = array-IsCodec;
  slice = array-IsCodec;
  u32_size = refl;
  str_writes = λ t h. (write 4 (length t) ++ t, ground arith);
  i32_writes = λ n h. (write 4 n, ground arith);
  bool_writes = λ b. (_, refl);
}

abbrev pub primitive_sizes : Sizes primitives
primitive_sizes = record {
  u8 = λ n. 1;
  u16 = λ n. 2;
  i32 = λ n. 4;
  bool = λ b. 1;
  str = λ t. 4 + length t;
  slice = λ t. 4 + length t;
  i32_fixed = 4;
  bool_fixed = 1;
  i32-i32_fixed = λ n. refl;
  bool-bool_fixed = λ b. refl;
  u8-Measures = int-length 1;
  u16-Measures = int-length 2;
  u32-Measures = int-length 4;
  i32-Measures = int-length 4;
  bool-Measures = bool-length;
  str-Measures = array-length;
  slice-Measures = array-length;
}

-- Four bytes for the length, five for the text, and four for the number.
ping_size_test : ping_size primitive_sizes (record { peer = codes "alice"; activations = 2 }) ≡ 13
unfolding ping_size
ping_size_test = refl

pub row_database-IsHealthy : IsHealthy row_database
unfolding get_setting_by_key set_setting
row_database-IsHealthy = record {
  reads = λ db k. (find k db, refl);
  writes = λ db s. go db s (find s.key db) refl;
}
  where
    go :
        (db : List Settings) (s : Settings) (o : Option Settings)
        → find s.key db ≡ o
        → (db' : List Settings) × (set_setting row_database db s ≡ ok db')
    go db s none e = (s ∷ db, rw e refl)
    go db s (some t) e = (s ∷ db, rw e refl)

abbrev pub host : Text
host = codes "10.0.0.5"

abbrev pub port : Text
port = codes "16250"

abbrev pub peer : Text
peer = codes "alice"

abbrev pub other_peer : Text
other_peer = codes "bob"

-- Channel 7 is dead, every other one takes its messages.
abbrev pub network : Network
network sx = if sx == 7 then closed else delivered

abbrev pub clients : Table ClientSender
clients = list_table ClientSender

abbrev pub messages : Channel HandlerMessage
messages = list_channel HandlerMessage

abbrev pub empty_chan : {A : Type 0} → ℕ → ListChan A
empty_chan room = record { queue = []; room = room; shut = false }

abbrev pub no_clients : ClientSenders clients messages
no_clients = new_with_buffer_size clients messages (empty_chan 2) 2

-- Two clients, one of them on the dead channel.
abbrev pub two_clients : ClientSenders clients messages
two_clients =
    add clients messages 100 network other_peer 7
      (add clients messages 100 network peer 1 no_clients)

abbrev pub statuses : Channel SenderStatus
statuses = list_channel SenderStatus

abbrev pub payloads : Channel Text
payloads = list_channel Text

abbrev pub sender : ServerSender statuses payloads
sender = Sender.new statuses payloads (empty_chan 8) (empty_chan 2) [] default_client_options

-- Registered, and connected on channel 3.
abbrev pub connected_sender : ServerSender statuses payloads
connected_sender = record sender {
  sx = some 3;
  server_sender = true;
  server_ip = codes "ws://10.0.0.5:16250";
  server_received_times = 1000;
}

abbrev pub session : Session statuses payloads row_database primitives
session = record { sender = sender; db = [] }
