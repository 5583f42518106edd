-- ===== src/Builder/Client.antt =====
-- src/helpers/builder.rs: `ClientOptionsBuilder`. A builder is the options that it has so far.
pub mod Laws
use atomic_websocket.Base.{ℕ, Text, Bool, List, [], ◌∷◌, ◌++◌, Option, none, some}
use atomic_websocket.Options.{
  ClientOptions, ServerOptions, AtomicWebsocketType, internal, external, MessageMiddleware,
  default_client_options, default_server_options,
}

pub record ClientOptionsBuilder : Type 0 where
  pub options : ClientOptions

unfoldable pub new : ClientOptionsBuilder
new = record { options = default_client_options }

-- The constructors for a connection in the local network and to a remote server.
unfoldable pub new_internal : ClientOptionsBuilder
new_internal = record {
  options = record default_client_options { atomic_websocket_type = internal };
}

unfoldable pub new_external : Text → ClientOptionsBuilder
new_external url_given = record {
  options = record default_client_options { atomic_websocket_type = external; url = url_given };
}

unfoldable pub url : Text → ClientOptionsBuilder → ClientOptionsBuilder
url value b = record { options = record b.options { url = value } }

unfoldable pub use_ping : Bool → ClientOptionsBuilder → ClientOptionsBuilder
use_ping value b = record { options = record b.options { use_ping = value } }

unfoldable pub retry_seconds : ℕ → ClientOptionsBuilder → ClientOptionsBuilder
retry_seconds value b = record { options = record b.options { retry_seconds = value } }

unfoldable pub use_keep_ip : Bool → ClientOptionsBuilder → ClientOptionsBuilder
use_keep_ip value b = record { options = record b.options { use_keep_ip = value } }

unfoldable pub connect_timeout : ℕ → ClientOptionsBuilder → ClientOptionsBuilder
connect_timeout value b = record { options = record b.options { connect_timeout_seconds = value } }

unfoldable pub connection_type : AtomicWebsocketType → ClientOptionsBuilder → ClientOptionsBuilder
connection_type value b = record { options = record b.options { atomic_websocket_type = value } }

unfoldable pub handler_buffer_size : ℕ → ClientOptionsBuilder → ClientOptionsBuilder
handler_buffer_size value b = record { options = record b.options { handler_buffer_size = value } }

unfoldable pub status_buffer_size : ℕ → ClientOptionsBuilder → ClientOptionsBuilder
status_buffer_size value b = record { options = record b.options { status_buffer_size = value } }

unfoldable pub per_connection_buffer_size : ℕ → ClientOptionsBuilder → ClientOptionsBuilder
per_connection_buffer_size value b = record {
  options = record b.options { per_connection_buffer_size = value };
}

unfoldable pub spillover_buffer_size : ℕ → ClientOptionsBuilder → ClientOptionsBuilder
spillover_buffer_size value b = record {
  options = record b.options { spillover_buffer_size = value };
}

unfoldable pub use_scan_discovery : Bool → ClientOptionsBuilder → ClientOptionsBuilder
use_scan_discovery value b = record { options = record b.options { use_scan_discovery = value } }

unfoldable pub scan_timeout_seconds : ℕ → ClientOptionsBuilder → ClientOptionsBuilder
scan_timeout_seconds value b = record {
  options = record b.options { scan_timeout_seconds = value };
}

unfoldable pub build : ClientOptionsBuilder → ClientOptions
build b = b.options

-- A call of one of the setters.
pub data Setting : Type 0 where
  sets_url : Text → Setting
  sets_use_ping : Bool → Setting
  sets_retry_seconds : ℕ → Setting
  sets_use_keep_ip : Bool → Setting
  sets_connect_timeout : ℕ → Setting
  sets_connection_type : AtomicWebsocketType → Setting
  sets_handler_buffer_size : ℕ → Setting
  sets_status_buffer_size : ℕ → Setting
  sets_per_connection_buffer_size : ℕ → Setting
  sets_spillover_buffer_size : ℕ → Setting
  sets_use_scan_discovery : Bool → Setting
  sets_scan_timeout_seconds : ℕ → Setting

unfoldable pub apply : Setting → ClientOptionsBuilder → ClientOptionsBuilder
unfolding url use_ping retry_seconds use_keep_ip connect_timeout connection_type handler_buffer_size
    status_buffer_size per_connection_buffer_size spillover_buffer_size use_scan_discovery
    scan_timeout_seconds
apply (sets_url value) b = url value b
apply (sets_use_ping value) b = use_ping value b
apply (sets_retry_seconds value) b = retry_seconds value b
apply (sets_use_keep_ip value) b = use_keep_ip value b
apply (sets_connect_timeout value) b = connect_timeout value b
apply (sets_connection_type value) b = connection_type value b
apply (sets_handler_buffer_size value) b = handler_buffer_size value b
apply (sets_status_buffer_size value) b = status_buffer_size value b
apply (sets_per_connection_buffer_size value) b = per_connection_buffer_size value b
apply (sets_spillover_buffer_size value) b = spillover_buffer_size value b
apply (sets_use_scan_discovery value) b = use_scan_discovery value b
apply (sets_scan_timeout_seconds value) b = scan_timeout_seconds value b

-- A chain of calls.
unfoldable pub chain : List Setting → ClientOptionsBuilder → ClientOptionsBuilder
chain [] b = b
chain (c ∷ cs) b = chain cs (apply c b)
