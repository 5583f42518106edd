-- ===== src/Examples/Addresses.antt =====
-- Addresses and messages at concrete inputs, and the unit tests `test_parse_port`, `test_to_ws_url`
-- of src/helpers/server_sender.rs and those of `outer_ws_url` in src/helpers/get_outer_websocket.rs.
use atomic_websocket.Base.{◌≡◌, refl, codes, true, false, [], starts_with, contains}
use atomic_websocket.Schema.Codecs.{AreCodecs, schema-AreCodecs}
use atomic_websocket.Address.{parse_port, to_ws_url, outer_ws_url}
use atomic_websocket.Examples.Values.{primitives, primitives-ArePrimitives, port}

test_parse_port :
    (parse_port (codes "ws://192.168.2.135:16250") ≡ codes "16250")
    × (parse_port (codes "wss://example.com:443/") ≡ codes "443")
    × (parse_port (codes "192.168.2.135:16250") ≡ codes "16250")
    × (parse_port (codes "ws://[::1]:16250") ≡ codes "16250")
    × (parse_port (codes "ws://192.168.2.135") ≡ [])
    × (parse_port (codes "192.168.2.135") ≡ [])
    × (parse_port (codes "ws://192.168.2.135:") ≡ [])
    × (parse_port [] ≡ [])
unfolding parse_port
test_parse_port = (refl, refl, refl, refl, refl, refl, refl, refl)

test_to_ws_url :
    (to_ws_url (codes "192.168.2.135") port ≡ codes "ws://192.168.2.135:16250")
    × (to_ws_url (codes "192.168.2.135:16250") port ≡ codes "ws://192.168.2.135:16250")
    × (to_ws_url (codes "ws://192.168.2.135:16250") port ≡ codes "ws://192.168.2.135:16250")
    × (to_ws_url (codes "wss://example.com:443") [] ≡ codes "wss://example.com:443")
    × (to_ws_url (codes "192.168.2.135") [] ≡ codes "ws://192.168.2.135")
    × (to_ws_url (codes "192.168.2.135") (codes "//192.168.2.135") ≡ codes "ws://192.168.2.135")
unfolding to_ws_url contains parse_port
test_to_ws_url = (refl, refl, refl, refl, refl, refl)

test_outer_ws_url :
    (outer_ws_url true (codes "ws://10.0.0.5:9000") ≡ codes "ws://10.0.0.5:9000")
    × (outer_ws_url false (codes "wss://license.jkpos365.com") ≡ codes "wss://license.jkpos365.com")
    × (outer_ws_url true (codes "10.0.0.5:9000") ≡ codes "wss://10.0.0.5:9000")
    × (outer_ws_url false (codes "10.0.0.5:9000") ≡ codes "ws://10.0.0.5:9000")
unfolding outer_ws_url starts_with
test_outer_ws_url = (refl, refl, refl, refl)

schema-AreCodecs_example : AreCodecs primitives primitives-ArePrimitives
schema-AreCodecs_example = schema-AreCodecs primitives primitives-ArePrimitives
