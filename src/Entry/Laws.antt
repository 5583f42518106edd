-- ===== src/Entry/Laws.antt =====
-- What the entry points of src/lib.rs hand out.
use atomic_websocket.Base.{◌≡◌, refl, Text, true, Option, none, some}
use atomic_websocket.Runtime.Channel.{Channel}
use atomic_websocket.Runtime.Database.{Database}
use atomic_websocket.Schema.{Primitives}
use atomic_websocket.Options.{ClientOptions, AtomicWebsocketType, internal, external}
use atomic_websocket.Store.{client_id_key}
use atomic_websocket.Store.Identity.{IsHealthy, ensured, ensure_client_id_lem}
use atomic_websocket.Sender.{SenderStatus, ServerSender, regist, Task, dial_internal, dial_outer}
use atomic_websocket.Sender.Retries.{attempt}
use atomic_websocket.Sender
use atomic_websocket.Entry.{
  AtomicClient, Given, of_kind, get_client, get_internal_client, get_outer_client,
  get_internal_client_with_server_sender, get_outer_client_with_server_sender, regist_id,
  internal_initialize, outer_initialize,
}

-- How the sender of a client dials again where a send of it has failed.
abbrev pub redial : AtomicWebsocketType → ClientOptions → Task
redial internal given = dial_internal given.url (of_kind internal given)
redial external given = dial_outer (of_kind external given)

module _ (S : Channel SenderStatus) (C : Channel Text) (D : Database) (P : Primitives) where
  open D use {Db, table}

  module _ (H : IsHealthy D) where
    -- What a client has of the sender it was given.
    abbrev Kept : Option (Given S C D P) → AtomicClient S C D P → Type 0
    Kept none a = a.own_store ≡ none
    Kept (some g) a =
        (a.own_store ≡ g.own_store)
        × (a.server_sender.sx ≡ g.server_sender.sx)
        × (a.server_sender.is_try_connect ≡ g.server_sender.is_try_connect)
        × (a.server_sender.is_scanning ≡ g.server_sender.is_scanning)

    -- A client of a kind: client and sender have the options, with the kind set, the sender has the
    -- URL as its address and knows itself, so that a failed send dials again, in the way of the kind,
    -- the ping loop of the kind runs, and the client's store has an identifier: the one that was
    -- there, or the one that was drawn. A sender that was given keeps its own store as it was, its
    -- connection and its flags.
    record IsMade (kind : AtomicWebsocketType) (nanoid : Text) (db : Db) (given : ClientOptions)
        (s : Option (Given S C D P)) (a : AtomicClient S C D P) : Type 0 where
      pub options : a.options ≡ of_kind kind given
      pub sender_options : a.server_sender.options ≡ of_kind kind given
      pub server_ip : a.server_sender.server_ip ≡ given.url
      pub registered : a.server_sender.server_sender ≡ true
      pub redials : attempt S C a.server_sender ≡ redial kind given
      pub ping_loop : a.ping_loop ≡ some kind
      pub kept : Kept s a
      pub identifier :
          table a.connection_store client_id_key
          ≡ some (ensured D H nanoid (table db client_id_key))

    get_client-IsMade :
        (kind : AtomicWebsocketType) (status : S.Chan) (messages : C.Chan) (nanoid : Text) (db : Db)
        (given : ClientOptions) (s : Option (Given S C D P))
        → IsMade kind nanoid db given s
            (get_client S C D P status messages nanoid db (of_kind kind given) s)
    unfolding get_client regist regist_id internal_initialize outer_initialize Sender.new
    get_client-IsMade internal status messages nanoid db given none = record {
      options = refl;
      sender_options = refl;
      server_ip = refl;
      registered = refl;
      redials = refl;
      ping_loop = refl;
      kept = refl;
      identifier = (ensure_client_id_lem D H nanoid nanoid db).0;
    }
    get_client-IsMade internal status messages nanoid db given (some s) = record {
      options = refl;
      sender_options = refl;
      server_ip = refl;
      registered = refl;
      redials = refl;
      ping_loop = refl;
      kept = (refl, refl, refl, refl);
      identifier = (ensure_client_id_lem D H nanoid nanoid db).0;
    }
    get_client-IsMade external status messages nanoid db given none = record {
      options = refl;
      sender_options = refl;
      server_ip = refl;
      registered = refl;
      redials = refl;
      ping_loop = refl;
      kept = refl;
      identifier = (ensure_client_id_lem D H nanoid nanoid db).0;
    }
    get_client-IsMade external status messages nanoid db given (some s) = record {
      options = refl;
      sender_options = refl;
      server_ip = refl;
      registered = refl;
      redials = refl;
      ping_loop = refl;
      kept = (refl, refl, refl, refl);
      identifier = (ensure_client_id_lem D H nanoid nanoid db).0;
    }

    -- Each entry point makes a client of the kind of its name, whatever kind its options asked for,
    -- if every transaction of the database goes through.
    clients-IsMade :
        (status : S.Chan) (messages : C.Chan) (nanoid : Text) (db : Db) (given : ClientOptions)
        (s : Given S C D P)
        → IsMade internal nanoid db given none
            (get_internal_client S C D P status messages nanoid db given)
          × IsMade internal nanoid db given
              (some s)
              (get_internal_client_with_server_sender S C D P status messages nanoid db given s)
          × IsMade external nanoid db given none
              (get_outer_client S C D P status messages nanoid db given)
          × IsMade external nanoid db given
              (some s)
              (get_outer_client_with_server_sender S C D P status messages nanoid db given s)
    unfolding get_internal_client get_internal_client_with_server_sender get_outer_client
        get_outer_client_with_server_sender
    clients-IsMade status messages nanoid db given s = (
      get_client-IsMade internal status messages nanoid db given none,
      get_client-IsMade internal status messages nanoid db given (some s),
      get_client-IsMade external status messages nanoid db given none,
      get_client-IsMade external status messages nanoid db given (some s),
    )
