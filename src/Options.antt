-- ===== src/Options.antt =====
-- The options of server and client: src/helpers/internal_server.rs, src/helpers/internal_client.rs
-- and the trait of src/helpers/middleware.rs. A u64 or usize is a number; `proxy_ping` is the bit
-- pattern of an i16. The build has no feature `rustls`, so there is no `tls_config`.
use atomic_websocket.Base.{ℕ, Text, Bool, true, false, List, []}

pub data MiddlewareResult : Type 0 where
  continue stop : MiddlewareResult

-- A middleware by its answers. `on_disconnect` returns nothing, and its effects are its own.
pub record MessageMiddleware : Type 0 where
  pub on_connect : Text → Bool
  pub on_message : Text → Text → MiddlewareResult

pub record ServerOptions : Type 0 where
  pub use_ping : Bool
  pub proxy_ping : ℕ
  pub client_timeout_seconds : ℕ
  pub client_check_interval_secs : ℕ
  pub per_connection_buffer_size : ℕ
  pub handler_buffer_size : ℕ
  pub spillover_buffer_size : ℕ
  pub max_connections : ℕ
  pub middlewares : List MessageMiddleware

-- `proxy_ping: -1` has the pattern 0xffff.
abbrev pub default_server_options : ServerOptions
default_server_options = record {
  use_ping = true;
  proxy_ping = 0xffff;
  client_timeout_seconds = 30;
  client_check_interval_secs = 15;
  per_connection_buffer_size = 8;
  handler_buffer_size = 1024;
  spillover_buffer_size = 1024;
  max_connections = 512;
  middlewares = [];
}

pub data AtomicWebsocketType : Type 0 where
  internal external : AtomicWebsocketType

pub record ClientOptions : Type 0 where
  pub use_ping : Bool
  pub url : Text
  pub retry_seconds : ℕ
  pub use_keep_ip : Bool
  pub connect_timeout_seconds : ℕ
  pub atomic_websocket_type : AtomicWebsocketType
  pub handler_buffer_size : ℕ
  pub status_buffer_size : ℕ
  pub per_connection_buffer_size : ℕ
  pub spillover_buffer_size : ℕ
  pub use_scan_discovery : Bool
  pub scan_timeout_seconds : ℕ

abbrev pub default_client_options : ClientOptions
default_client_options = record {
  use_ping = true;
  url = [];
  retry_seconds = 30;
  use_keep_ip = false;
  connect_timeout_seconds = 3;
  atomic_websocket_type = internal;
  handler_buffer_size = 256;
  status_buffer_size = 8;
  per_connection_buffer_size = 8;
  spillover_buffer_size = 1024;
  use_scan_discovery = false;
  scan_timeout_seconds = 60;
}
