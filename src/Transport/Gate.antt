-- ===== src/Transport/Gate.antt =====
-- How a socket gets and loses its session: the upgrade of src/transport/ws/WsController.hpp, and
-- the listener of sockets in src/transport/ws/WsModule.cpp. The handshake of oat++ hands the
-- parameters of the upgrade on to the listener.
pub mod Sessions
use picasso_backend.Base.{
  ℕ, ◌+◌, Bool, List, [], ◌∷◌, Option, none, some, Bytes, ◌==◌, nat_eq, codes, if◌then◌else◌,
}
use picasso_backend.Base.Numerals.{to_string, stoull}
use picasso_backend.Base.Table.{delete, exists}
use picasso_backend.Domain.Ids.{SteamId, ConnectionId, Time}
use picasso_backend.Storage.Rows.{Database}
use picasso_backend.Service.Auth.{authenticate}
use picasso_backend.Transport.Hub.{Hub, Connection, add, remove}
use picasso_backend.Transport.Session.{WsSession, create_session}

-- The parameter `steamId` of the upgrade.
abbrev pub upgrade_parameter : Option SteamId → Option Bytes
upgrade_parameter none = none
upgrade_parameter (some id) = some (to_string id)

-- Without a parameter the answer is 401.
unfoldable pub ws : (Bytes → Bytes) → Option Bytes → Time → Database → Option Bytes
ws sha256 none now db = none
ws sha256 (some authorization) now db = upgrade_parameter (authenticate sha256 authorization now db)

-- The sockets with their sessions, the hub, and the counter of the connection ids. The address of
-- a socket stands for that of its session.
pub record Sockets : Type 0 where
  pub sessions : List (ℕ × WsSession)
  pub hub : Hub
  pub next_connection_id : ConnectionId

-- A session lives while its socket is in the map.
abbrev pub is_open : List (ℕ × WsSession) → ℕ → Bool
is_open sessions address = exists (λ e. e.0 == address) sessions

abbrev pub connection_of : ℕ → WsSession → Connection
connection_of address s = record { address = address; connection_id = s.connection_id }

unfoldable pub register : ℕ → WsSession → Sockets → Sockets
register address session ws = record {
  sessions = (address, session) ∷ delete (λ e. e.0 == address) ws.sessions;
  hub = add session.steam_id (connection_of address session) ws.hub;
  next_connection_id = ws.next_connection_id + 1;
}

abbrev pub start_session : Option SteamId → ℕ → Sockets → Sockets
start_session none address ws = ws
start_session (some id) address ws = register address (create_session id ws.next_connection_id) ws

-- A socket without the parameter is closed, and one whose parameter is no number throws.
unfoldable pub on_after_create : Option Bytes → ℕ → Sockets → Sockets
unfolding register
on_after_create none address ws = ws
on_after_create (some steam_id) address ws = start_session (stoull steam_id) address ws

unfoldable pub find_session : ℕ → List (ℕ × WsSession) → Option WsSession
find_session address [] = none
find_session address ((a, s) ∷ rest) = if a == address then some s else find_session address rest

-- The session itself is still held while it is taken from the hub.
abbrev pub unregister : ℕ → Option WsSession → Sockets → Sockets
unregister address none ws = ws
unregister address (some s) ws = record ws {
  sessions = delete (λ e. e.0 == address) ws.sessions;
  hub = remove (is_open ws.sessions) s.steam_id address ws.hub;
}

unfoldable pub on_before_destroy : ℕ → Sockets → Sockets
unfolding find_session
on_before_destroy address ws = unregister address (find_session address ws.sessions) ws
