-- ===== src/Transport/Gate/Sessions.antt =====
-- The identity of a connection is that of its token (src/transport/ws/WsController.hpp,
-- src/transport/ws/WsModule.cpp, src/transport/ws/ConnectionHub.cpp).
use picasso_backend.Base.{
  ℕ, ◌≡◌, ◌<◌, ◌^◌, refl, [], ◌∷◌, ◌++◌, some, Bytes, nat_beq, if◌then◌else◌, ==_refl,
}
use picasso_backend.Base.Numerals.{stoull-to_string}
use picasso_backend.Base.Table.{exists}
use picasso_backend.Domain.Ids.{SteamId, Time}
use picasso_backend.Storage.Rows.{Database}
use picasso_backend.Service.Auth.{authenticate}
use picasso_backend.Transport.Hub.{resolve}
use picasso_backend.Transport.Hub.Delivery.{resolve-add}
use picasso_backend.Transport.Session.{create_session}
use picasso_backend.Transport.Gate.{
  Sockets, ws, is_open, connection_of, register, on_after_create, find_session,
}

-- A socket that is upgraded with a token gets a session of the user that the token is for, whose
-- id is a 64-bit number, and nobody else's: the session is found under the socket, the frames for
-- that user reach it last of the user's live connections, and those for others reach what they
-- reached among the connections that are live then.
pub on_after_create-identity :
    (sha256 : Bytes → Bytes) (authorization : Bytes) (now : Time) (db : Database) (id : SteamId)
    (address : ℕ) (before : Sockets)
    → authenticate sha256 authorization now db ≡ some id
    → id < 2 ^ 64
    → let after = on_after_create (ws sha256 (some authorization) now db) address before in
      let session = create_session id before.next_connection_id in
      (find_session address after.sessions ≡ some session)
      × ((other : SteamId)
          → resolve (is_open after.sessions) other after.hub ≡ (
              if nat_beq other id
              then resolve (is_open after.sessions) other before.hub
                ++ connection_of address session ∷ []
              else resolve (is_open after.sessions) other before.hub))
unfolding on_after_create ws find_session register exists create_session
on_after_create-identity sha256 authorization now db id address before h small =
    rw (h, stoull-to_string id small)
      (
        rw (==_refl address) refl,
        (λ other. resolve-add _ id other _ before.hub (rw (==_refl address) refl)),
      )
