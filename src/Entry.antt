-- ===== src/Entry.antt =====
-- src/lib.rs: `AtomicWebsocket`, the entry points that make clients and servers, with the methods of
-- `AtomicClient` in src/helpers/internal_client.rs that they call.
pub mod Laws
use atomic_websocket.Base.{ℕ, Text, Bool, true, false, Option, none, some}
use atomic_websocket.Runtime.Channel.{Channel}
use atomic_websocket.Runtime.Table.{Table}
use atomic_websocket.Runtime.Database.{Database}
use atomic_websocket.Schema.{Primitives}
use atomic_websocket.Options.{ClientOptions, ServerOptions, AtomicWebsocketType, internal, external}
use atomic_websocket.Clients.{ClientSender, HandlerMessage, ClientSenders}
use atomic_websocket.Server.Lifetime.{AtomicServer}
use atomic_websocket.Server.Lifetime
use atomic_websocket.Store.{ensure_client_id}
use atomic_websocket.Sender.{SenderStatus, ServerSender, regist}
use atomic_websocket.Sender
use atomic_websocket.Sender.Persist.{Session}

abbrev pub of_kind : AtomicWebsocketType → ClientOptions → ClientOptions
of_kind kind options = record options { atomic_websocket_type = kind }

module _ (S : Channel SenderStatus) (C : Channel Text) (D : Database) (P : Primitives) where
  -- The store that the client was made with, of its initialization and its ping loop, and the one of
  -- a sender that was given, where that is another; `ping_loop` is the loop that the initialization
  -- has spawned.
  pub record AtomicClient : Type 0 where
    pub server_sender : ServerSender S C
    pub connection_store : D.Db
    pub own_store : Option D.Db
    pub options : ClientOptions
    pub ping_loop : Option AtomicWebsocketType
    pub cancelled : Bool

  unfoldable pub regist_id : Text → AtomicClient → AtomicClient
  regist_id nanoid a = record a { connection_store = ensure_client_id D nanoid a.connection_store }

  unfoldable pub internal_initialize : Text → AtomicClient → AtomicClient
  unfolding regist_id
  internal_initialize nanoid a = record (regist_id nanoid a) { ping_loop = some internal }

  unfoldable pub outer_initialize : Text → AtomicClient → AtomicClient
  unfolding regist_id
  outer_initialize nanoid a = record (regist_id nanoid a) { ping_loop = some external }

  -- A sender that is given, with its store, if that is not the one of the client.
  pub record Given : Type 0 where
    pub server_sender : ServerSender S C
    pub own_store : Option D.Db

  -- The two channels are those of a sender that is made here. A sender that is given keeps all but its
  -- address and its options.
  abbrev pub given_or_new : S.Chan → C.Chan → ClientOptions → Option Given → Given
  given_or_new status messages options (some g) = record g {
    server_sender = record g.server_sender { server_ip = options.url; options = options };
  }
  given_or_new status messages options none = record {
    server_sender = Sender.new S C status messages options.url options;
    own_store = none;
  }

  abbrev pub initialize : AtomicWebsocketType → Text → AtomicClient → AtomicClient
  initialize internal nanoid a = internal_initialize nanoid a
  initialize external nanoid a = outer_initialize nanoid a

  unfoldable pub get_client :
      S.Chan → C.Chan → Text → D.Db → ClientOptions → Option Given → AtomicClient
  get_client status messages nanoid connection_store options server_sender =
      let g = given_or_new status messages options server_sender in
      initialize options.atomic_websocket_type nanoid (record {
        server_sender = regist S C g.server_sender;
        connection_store = connection_store;
        own_store = g.own_store;
        options = options;
        ping_loop = none;
        cancelled = false;
      })

  unfoldable pub get_internal_client : S.Chan → C.Chan → Text → D.Db → ClientOptions → AtomicClient
  get_internal_client status messages nanoid db options =
      get_client status messages nanoid db (of_kind internal options) none

  unfoldable pub get_internal_client_with_server_sender :
      S.Chan → C.Chan → Text → D.Db → ClientOptions → Given → AtomicClient
  get_internal_client_with_server_sender status messages nanoid db options server_sender =
      get_client status messages nanoid db (of_kind internal options) (some server_sender)

  unfoldable pub get_outer_client : S.Chan → C.Chan → Text → D.Db → ClientOptions → AtomicClient
  get_outer_client status messages nanoid db options =
      get_client status messages nanoid db (of_kind external options) none

  unfoldable pub get_outer_client_with_server_sender :
      S.Chan → C.Chan → Text → D.Db → ClientOptions → Given → AtomicClient
  get_outer_client_with_server_sender status messages nanoid db options server_sender =
      get_client status messages nanoid db (of_kind external options) (some server_sender)

module _ (T : Table ClientSender) (C : Channel HandlerMessage) where
  unfoldable pub get_internal_server : C.Chan → Bool → ServerOptions → Option (AtomicServer T C)
  get_internal_server c bound option = Lifetime.new T C c bound option none

  unfoldable pub get_internal_server_with_client_senders :
      C.Chan → Bool → ServerOptions → ClientSenders T C → Option (AtomicServer T C)
  get_internal_server_with_client_senders c bound option client_senders =
      Lifetime.new T C c bound option (some client_senders)
