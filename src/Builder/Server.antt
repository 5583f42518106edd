-- ===== src/Builder/Server.antt =====
-- src/helpers/builder.rs: `ServerOptionsBuilder`. A builder is the options that it has so far.
pub mod Laws
use atomic_websocket.Base.{ℕ, Text, Bool, List, [], ◌∷◌, ◌++◌, Option, none, some}
use atomic_websocket.Options.{
  ClientOptions, ServerOptions, AtomicWebsocketType, internal, external, MessageMiddleware,
  default_client_options, default_server_options,
}

pub record ServerOptionsBuilder : Type 0 where
  pub options : ServerOptions

unfoldable pub new : ServerOptionsBuilder
new = record { options = default_server_options }

unfoldable pub use_ping : Bool → ServerOptionsBuilder → ServerOptionsBuilder
use_ping value b = record { options = record b.options { use_ping = value } }

unfoldable pub proxy_ping : ℕ → ServerOptionsBuilder → ServerOptionsBuilder
proxy_ping value b = record { options = record b.options { proxy_ping = value } }

unfoldable pub client_timeout_seconds : ℕ → ServerOptionsBuilder → ServerOptionsBuilder
client_timeout_seconds value b = record {
  options = record b.options { client_timeout_seconds = value };
}

unfoldable pub client_check_interval_secs : ℕ → ServerOptionsBuilder → ServerOptionsBuilder
client_check_interval_secs value b = record {
  options = record b.options { client_check_interval_secs = value };
}

unfoldable pub per_connection_buffer_size : ℕ → ServerOptionsBuilder → ServerOptionsBuilder
per_connection_buffer_size value b = record {
  options = record b.options { per_connection_buffer_size = value };
}

unfoldable pub handler_buffer_size : ℕ → ServerOptionsBuilder → ServerOptionsBuilder
handler_buffer_size value b = record { options = record b.options { handler_buffer_size = value } }

unfoldable pub max_connections : ℕ → ServerOptionsBuilder → ServerOptionsBuilder
max_connections value b = record { options = record b.options { max_connections = value } }

unfoldable pub spillover_buffer_size : ℕ → ServerOptionsBuilder → ServerOptionsBuilder
spillover_buffer_size value b = record {
  options = record b.options { spillover_buffer_size = value };
}

unfoldable pub middleware : MessageMiddleware → ServerOptionsBuilder → ServerOptionsBuilder
middleware mw b = record {
  options = record b.options { middlewares = b.options.middlewares ++ mw ∷ [] };
}

unfoldable pub build : ServerOptionsBuilder → ServerOptions
build b = b.options

-- A call of one of the setters.
pub data Setting : Type 0 where
  sets_use_ping : Bool → Setting
  sets_proxy_ping : ℕ → Setting
  sets_client_timeout_seconds : ℕ → Setting
  sets_client_check_interval_secs : ℕ → Setting
  sets_per_connection_buffer_size : ℕ → Setting
  sets_handler_buffer_size : ℕ → Setting
  sets_max_connections : ℕ → Setting
  sets_spillover_buffer_size : ℕ → Setting
  adds_middleware : MessageMiddleware → Setting

unfoldable pub apply : Setting → ServerOptionsBuilder → ServerOptionsBuilder
unfolding use_ping proxy_ping client_timeout_seconds client_check_interval_secs
    per_connection_buffer_size handler_buffer_size max_connections spillover_buffer_size middleware
apply (sets_use_ping value) b = use_ping value b
apply (sets_proxy_ping value) b = proxy_ping value b
apply (sets_client_timeout_seconds value) b = client_timeout_seconds value b
apply (sets_client_check_interval_secs value) b = client_check_interval_secs value b
apply (sets_per_connection_buffer_size value) b = per_connection_buffer_size value b
apply (sets_handler_buffer_size value) b = handler_buffer_size value b
apply (sets_max_connections value) b = max_connections value b
apply (sets_spillover_buffer_size value) b = spillover_buffer_size value b
apply (adds_middleware mw) b = middleware mw b

-- A chain of calls.
unfoldable pub chain : List Setting → ServerOptionsBuilder → ServerOptionsBuilder
chain [] b = b
chain (c ∷ cs) b = chain cs (apply c b)
