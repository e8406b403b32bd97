-- ===== src/App/System.antt =====
-- The services behind both transports: the requests of src/transport/http and the frames of
-- src/transport/ws act on one database, one chat service and one login service, which
-- src/app/App.cpp gives to both.
pub mod Keeping
pub mod Endpoints
pub mod Requests
pub mod Sockets
pub mod Untouched
pub mod Logins
pub mod Messages
pub mod Social
pub mod Invariant
use picasso_backend.Base.{ℕ, Bool, List, [], ◌∷◌, Option, Bytes}
use picasso_backend.Domain.Ids.{SteamId, Time}
use picasso_backend.Service.Chat.{ChatState}
use picasso_backend.Transport.EnvelopeCodec.{ObjectMapper}
use picasso_backend.Storage.Rows.{Database}
use picasso_backend.Service.Auth.{PendingLogins}
use picasso_backend.Transport.Http.Api.{Request, Clock, handle}
use picasso_backend.Transport.Http.AuthController.{LoginState, auth_return, auth_logout, auth_poll}
use picasso_backend.Transport.Hub.{Hub}
use picasso_backend.Transport.Serving.{serve_frame}
use picasso_backend.Transport.Session.{WsSession}

-- A request with the caller whom the token stands for, a request to the login, or a frame on a
-- session; the connections that are in the hub meanwhile are part of it, and what Steam and the
-- random number generator answer.
pub data Action : Type 0 where
  http_request : Request → (caller : Option SteamId) → Clock → Action
  login_return :
      (post : Bytes → Option (ℕ × Option Bytes)) (random : Option Bytes)
      → (query : List (Option Bytes × Option Bytes)) (now now_parked : Time) → Action
  login_poll : (state : Option Bytes) (now : Time) → Action
  logout_request : (authorization : Bytes) (now : Time) → Action
  ws_frame :
      (mapper : ObjectMapper) (alive : ℕ → Bool)
      → Hub
      → WsSession
      → (frame : Bytes) (now now_read : Time) → Action

pub record System : Type 0 where
  pub chat : ChatState
  pub pending : PendingLogins

abbrev pub database : System → Database
database s = s.chat.world.db

-- The part of the login service, and what it leaves.
abbrev pub login_state : System → LoginState
login_state s = record { db = database s; pending = s.pending }

abbrev pub with_login : LoginState → System → System
with_login l s = record {
  chat = record s.chat { world = record s.chat.world { db = l.db } };
  pending = l.pending;
}

module _ (sha256 : Bytes → Bytes) (login_complete_page : Bytes) where
  unfoldable pub act : Action → System → System
  unfolding handle serve_frame auth_return auth_poll auth_logout
  act (http_request request caller t) s = record s {
    chat = record s.chat { world = (handle request caller t s.chat.world).0 };
  }
  act (login_return post random query now now_parked) s =
      with_login
        (auth_return sha256 login_complete_page post random query now now_parked (login_state s)).0
        s
  act (login_poll state now) s = with_login (auth_poll state now (login_state s)).0 s
  act (logout_request authorization now) s =
      with_login (auth_logout sha256 login_complete_page authorization now (login_state s)).0 s
  act (ws_frame mapper alive hub session frame now now_read) s = record s {
    chat = (serve_frame mapper alive hub frame now now_read session s.chat).1;
  }

  unfoldable pub act_all : List Action → System → System
  act_all [] s = s
  act_all (a ∷ rest) s = act_all rest (act a s)
