-- ===== src/Builder/Client/Laws.antt =====
-- What a chain of calls of `ClientOptionsBuilder` in src/helpers/builder.rs builds.
use atomic_websocket.Base.{ℕ, ◌≡◌, refl, ◌∙◌, Text, Bool, Option, none, some, List, [], ◌∷◌}
use atomic_websocket.Options.{ClientOptions, AtomicWebsocketType, default_client_options}
use atomic_websocket.Builder.Latest.{latest}
use atomic_websocket.Builder.Client.{
  ClientOptionsBuilder, new, build, Setting, apply, chain, sets_url, sets_use_ping,
  sets_retry_seconds, sets_use_keep_ip, sets_connect_timeout, sets_connection_type,
  sets_handler_buffer_size, sets_status_buffer_size, sets_per_connection_buffer_size,
  sets_spillover_buffer_size, sets_use_scan_discovery, sets_scan_timeout_seconds,
}

abbrev pub given_url : Setting → Option Text
given_url (sets_url value) = some value
given_url _ = none

abbrev pub given_use_ping : Setting → Option Bool
given_use_ping (sets_use_ping value) = some value
given_use_ping _ = none

abbrev pub given_retry_seconds : Setting → Option ℕ
given_retry_seconds (sets_retry_seconds value) = some value
given_retry_seconds _ = none

abbrev pub given_use_keep_ip : Setting → Option Bool
given_use_keep_ip (sets_use_keep_ip value) = some value
given_use_keep_ip _ = none

abbrev pub given_connect_timeout : Setting → Option ℕ
given_connect_timeout (sets_connect_timeout value) = some value
given_connect_timeout _ = none

abbrev pub given_connection_type : Setting → Option AtomicWebsocketType
given_connection_type (sets_connection_type value) = some value
given_connection_type _ = none

abbrev pub given_handler_buffer_size : Setting → Option ℕ
given_handler_buffer_size (sets_handler_buffer_size value) = some value
given_handler_buffer_size _ = none

abbrev pub given_status_buffer_size : Setting → Option ℕ
given_status_buffer_size (sets_status_buffer_size value) = some value
given_status_buffer_size _ = none

abbrev pub given_per_connection_buffer_size : Setting → Option ℕ
given_per_connection_buffer_size (sets_per_connection_buffer_size value) = some value
given_per_connection_buffer_size _ = none

abbrev pub given_spillover_buffer_size : Setting → Option ℕ
given_spillover_buffer_size (sets_spillover_buffer_size value) = some value
given_spillover_buffer_size _ = none

abbrev pub given_use_scan_discovery : Setting → Option Bool
given_use_scan_discovery (sets_use_scan_discovery value) = some value
given_use_scan_discovery _ = none

abbrev pub given_scan_timeout_seconds : Setting → Option ℕ
given_scan_timeout_seconds (sets_scan_timeout_seconds value) = some value
given_scan_timeout_seconds _ = none

-- Each field has the last value that it was given, or else that of the options at the start.
abbrev pub summary : List Setting → ClientOptions → ClientOptions
summary cs o = record {
  url = latest given_url cs o.url;
  use_ping = latest given_use_ping cs o.use_ping;
  retry_seconds = latest given_retry_seconds cs o.retry_seconds;
  use_keep_ip = latest given_use_keep_ip cs o.use_keep_ip;
  connect_timeout_seconds = latest given_connect_timeout cs o.connect_timeout_seconds;
  atomic_websocket_type = latest given_connection_type cs o.atomic_websocket_type;
  handler_buffer_size = latest given_handler_buffer_size cs o.handler_buffer_size;
  status_buffer_size = latest given_status_buffer_size cs o.status_buffer_size;
  per_connection_buffer_size =
      latest given_per_connection_buffer_size cs o.per_connection_buffer_size;
  spillover_buffer_size = latest given_spillover_buffer_size cs o.spillover_buffer_size;
  use_scan_discovery = latest given_use_scan_discovery cs o.use_scan_discovery;
  scan_timeout_seconds = latest given_scan_timeout_seconds cs o.scan_timeout_seconds;
}

summary-apply :
    (c : Setting) (cs : List Setting) (b : ClientOptionsBuilder)
    → summary cs (apply c b).options ≡ summary (c ∷ cs) b.options
unfolding apply
summary-apply (sets_url value) cs b = refl
summary-apply _ cs b = refl

chain-summary :
    (cs : List Setting) (b : ClientOptionsBuilder) → (chain cs b).options ≡ summary cs b.options
unfolding chain
chain-summary [] b = refl
chain-summary (c ∷ cs) b = chain-summary cs (apply c b) ∙ summary-apply c cs b

-- Whatever the setters are called with, and in whatever order: each option that the builder builds
-- is what the last call that sets it gave, or its default if no call does.
pub build-chain : (cs : List Setting) → build (chain cs new) ≡ summary cs default_client_options
unfolding build new
build-chain cs = chain-summary cs new
