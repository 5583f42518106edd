-- ===== src/Builder/Server/Laws.antt =====
-- What a chain of calls of `ServerOptionsBuilder` in src/helpers/builder.rs builds.
use atomic_websocket.Base.{
  ℕ, ◌≡◌, refl, ap, ◌∙◌, sym, Bool, Option, none, some, List, [], ◌∷◌, ◌++◌, append_assoc,
  append-nil,
}
use atomic_websocket.Options.{ServerOptions, MessageMiddleware, default_server_options}
use atomic_websocket.Builder.Latest.{latest}
use atomic_websocket.Builder.Server.{
  ServerOptionsBuilder, new, build, Setting, apply, chain, sets_use_ping, sets_proxy_ping,
  sets_client_timeout_seconds, sets_client_check_interval_secs, sets_per_connection_buffer_size,
  sets_handler_buffer_size, sets_max_connections, sets_spillover_buffer_size, adds_middleware,
}

abbrev pub given_use_ping : Setting → Option Bool
given_use_ping (sets_use_ping value) = some value
given_use_ping _ = none

abbrev pub given_proxy_ping : Setting → Option ℕ
given_proxy_ping (sets_proxy_ping value) = some value
given_proxy_ping _ = none

abbrev pub given_client_timeout_seconds : Setting → Option ℕ
given_client_timeout_seconds (sets_client_timeout_seconds value) = some value
given_client_timeout_seconds _ = none

abbrev pub given_client_check_interval_secs : Setting → Option ℕ
given_client_check_interval_secs (sets_client_check_interval_secs value) = some value
given_client_check_interval_secs _ = none

abbrev pub given_per_connection_buffer_size : Setting → Option ℕ
given_per_connection_buffer_size (sets_per_connection_buffer_size value) = some value
given_per_connection_buffer_size _ = none

abbrev pub given_handler_buffer_size : Setting → Option ℕ
given_handler_buffer_size (sets_handler_buffer_size value) = some value
given_handler_buffer_size _ = none

abbrev pub given_max_connections : Setting → Option ℕ
given_max_connections (sets_max_connections value) = some value
given_max_connections _ = none

abbrev pub given_spillover_buffer_size : Setting → Option ℕ
given_spillover_buffer_size (sets_spillover_buffer_size value) = some value
given_spillover_buffer_size _ = none

-- The middlewares that are added, in the order of the calls.
abbrev pub added : List Setting → List MessageMiddleware
added [] = []
added (adds_middleware mw ∷ cs) = mw ∷ added cs
added (_ ∷ cs) = added cs

-- Each field has the last value that it was given, or else that of the options at the start, and
-- the middlewares stand behind those at the start.
abbrev pub summary : List Setting → ServerOptions → ServerOptions
summary cs o = record {
  use_ping = latest given_use_ping cs o.use_ping;
  proxy_ping = latest given_proxy_ping cs o.proxy_ping;
  client_timeout_seconds = latest given_client_timeout_seconds cs o.client_timeout_seconds;
  client_check_interval_secs =
      latest given_client_check_interval_secs cs o.client_check_interval_secs;
  per_connection_buffer_size =
      latest given_per_connection_buffer_size cs o.per_connection_buffer_size;
  handler_buffer_size = latest given_handler_buffer_size cs o.handler_buffer_size;
  max_connections = latest given_max_connections cs o.max_connections;
  spillover_buffer_size = latest given_spillover_buffer_size cs o.spillover_buffer_size;
  middlewares = o.middlewares ++ added cs;
}

summary-apply :
    (c : Setting) (cs : List Setting) (b : ServerOptionsBuilder)
    → summary cs (apply c b).options ≡ summary (c ∷ cs) b.options
unfolding apply
summary-apply (adds_middleware mw) cs b =
    ap (λ (mws : List MessageMiddleware). record (summary cs b.options) { middlewares = mws })
      (append_assoc b.options.middlewares (mw ∷ []) (added cs))
summary-apply _ cs b = refl

chain-summary :
    (cs : List Setting) (b : ServerOptionsBuilder) → (chain cs b).options ≡ summary cs b.options
unfolding chain
chain-summary [] b =
    ap (λ (mws : List MessageMiddleware). record b.options { middlewares = mws })
      (sym (append-nil b.options.middlewares))
chain-summary (c ∷ cs) b = chain-summary cs (apply c b) ∙ summary-apply c cs b

-- Whatever the setters are called with, and in whatever order: each option that the builder builds
-- is what the last call that sets it gave, or its default if no call does, and the middlewares are
-- exactly those that were added, in the order of the calls.
pub build-chain : (cs : List Setting) → build (chain cs new) ≡ summary cs default_server_options
unfolding build new
build-chain cs = chain-summary cs new
