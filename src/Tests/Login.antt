-- ===== src/Tests/Login.antt =====
-- Logins on small inputs (src/service/AuthService.cpp, src/steam/OpenIdVerifier.cpp,
-- src/transport/http/AuthController.hpp, src/transport/ws/WsModule.cpp).
use picasso_backend.Base.{
  ℕ, ◌+◌, ◌≡◌, refl, arith, true, List, [], ◌∷◌, Option, none, some, Bytes, bytes_beq, codes,
}
use picasso_backend.Base.Numerals.{to_string, print, stoull, skip_spaces}
use picasso_backend.Base.Table.{select, delete, update, exists, find_by, upsert, insert_or_ignore}
use picasso_backend.Domain.Session.{is_usable_at}
use picasso_backend.Storage.Rows.{Database}
use picasso_backend.Storage.ContactQueries.{create_user}
use picasso_backend.Storage.SessionQueries.{insert_session, select_session_by_hash, revoke_session}
use picasso_backend.Storage.SessionRepository.{store, first_session, find_by_token_hash, revoke}
use picasso_backend.Steam.OpenId.{
  verify, find, assign, verify_params, build_form_body, openid_params, is_openid, percent_encode,
  more_fields, is_confirmed,
}
use picasso_backend.Steam.OpenId.Trust.{verify-confirmed}
use picasso_backend.Service.Auth.{
  IssuedToken, to_hex, strip_bearer_prefix, sha256_hex, complete_login, authenticate, logout,
  user_of, session_ttl_ms, prune_pending_locked, park_login, claim_login,
}
use picasso_backend.Service.Auth.Sessions.{
  login_call, logout_call, step, run, authenticate-refines, logout-final,
}
use picasso_backend.Service.Auth.PendingMap as Pending
use picasso_backend.Service.Auth.Pending.{claim-once}
use picasso_backend.Transport.Http.Reply.{response, text_body}
use picasso_backend.Transport.Http.AuthController.{
  decode, decode_param, collect, hand_over, auth_return, auth_poll, to_token_dto,
}
use picasso_backend.Transport.Http.AuthController.Encoding.{decode-percent_encode}
use picasso_backend.Transport.Http.AuthController.Handoff.{auth_poll-hands_over}
use picasso_backend.Transport.Gate.{Sockets, ws, on_after_create, register, find_session}
use picasso_backend.Transport.Gate.Sessions.{on_after_create-identity}
use picasso_backend.Transport.Session.{create_session}
use picasso_backend.Transport.FrameQueue.{create}

program : Unit {0}
unfolding select delete update exists find_by upsert insert_or_ignore bytes_beq to_string print
    stoull skip_spaces is_usable_at create_user insert_session select_session_by_hash revoke_session
    store first_session find_by_token_hash revoke verify find assign verify_params build_form_body
    openid_params is_openid percent_encode more_fields to_hex strip_bearer_prefix sha256_hex
    complete_login authenticate logout user_of prune_pending_locked park_login claim_login step run
    Pending.step Pending.run decode decode_param collect hand_over auth_return auth_poll
    to_token_dto ws on_after_create register find_session create_session create
program = tt

abbrev nobody : Database
nobody = record {
  users = [];
  sessions = [];
  conversations = [];
  chat = [];
  palette = [];
  members = [];
  message_data = [];
  contacts = [];
  contact_requests = [];
  palette_invites = [];
  next_conversation_id = 1;
  next_message_id = 1;
}

-- A stand-in for the hash.
abbrev pub last_byte : Bytes → Bytes
last_byte [] = []
last_byte (c ∷ []) = c ∷ []
last_byte (c ∷ d ∷ cs) = last_byte (d ∷ cs)

abbrev logged_in : Database
logged_in = (complete_login last_byte (some 7) (some (171 ∷ [])) 1000 nobody).0

abbrev ab : Bytes
ab = codes "ab"

ab_authenticated : authenticate last_byte ab 2000 logged_in ≡ some 7
unfolding program
ab_authenticated = refl

authenticate-refines_example :
    authenticate last_byte ab 2000
      (run last_byte (login_call (some 7) (some (171 ∷ [])) 1000 ∷ logout_call ab 1500 ∷ []) nobody)
    ≡ none
unfolding program
authenticate-refines_example =
    authenticate-refines last_byte
      (login_call (some 7) (some (171 ∷ [])) 1000 ∷ logout_call ab 1500 ∷ []) nobody ab 2000

logout-final_example :
    authenticate last_byte ab 2000 (
      run last_byte
        (login_call (some 8) (some (171 ∷ [])) 1600 ∷ [])
        (logout last_byte ab 1500 logged_in))
    ≡ none
unfolding program
logout-final_example =
    logout-final last_byte (login_call (some 8) (some (171 ∷ [])) 1600 ∷ []) logged_in ab 1200 1500
      2000 7 refl

abbrev token_ab : IssuedToken
token_ab = record { token = ab; steam_id = 7; expires_at_epoch_ms = 1000 + session_ttl_ms }

claim-once_example :
    (claim_login ab 200 (Pending.run [] (park_login ab token_ab 100 (Pending.run [] [])))).1
    ≡ some token_ab
unfolding program
claim-once_example = (claim-once [] [] [] ab token_ab 100 200 300 refl tt tt).0

-- An assertion of Steam's about user 7, with a state.
abbrev pub query : List (Option Bytes × Option Bytes)
query =
    (some (codes "state"), some (codes "a%62"))
    ∷ (some (codes "openid.claimed_id"), some (codes "https://steamcommunity.com/openid/id/7"))
    ∷ []

abbrev pub steam : Bytes → Option (ℕ × Option Bytes)
steam body = some (200, some (codes "is_valid:true"))

verify-confirmed_example :
    is_confirmed (steam (build_form_body (verify_params (collect query [])))) ≡ true
unfolding program
verify-confirmed_example = (verify-confirmed steam (collect query []) 7 refl).0

auth_poll-hands_over_example :
    (auth_return last_byte [] steam
      (some (171 ∷ []))
      query
      1000
      1000
      (record { db = nobody; pending = [] })).1
    ≡ response 200 (text_body (codes "text/html; charset=utf-8") [])
unfolding program
auth_poll-hands_over_example =
    (auth_poll-hands_over last_byte [] steam (some (171 ∷ [])) query (some (codes "ab")) [] nobody
      1000 1000 2000 3000 4000 token_ab refl refl refl refl).1

decode-percent_encode_example : decode (percent_encode (97 ∷ 47 ∷ 37 ∷ [])) ≡ 97 ∷ 47 ∷ 37 ∷ []
decode-percent_encode_example =
    decode-percent_encode (97 ∷ 47 ∷ 37 ∷ []) (omega arith, (omega arith, (omega arith, tt)))

abbrev no_sockets : Sockets
no_sockets = record { sessions = []; hub = []; next_connection_id = 5 }

on_after_create-identity_example :
    find_session 100
      (on_after_create (ws last_byte (some ab) 2000 logged_in) 100 no_sockets).sessions
    ≡ some (create_session 7 5)
unfolding program
on_after_create-identity_example =
    (on_after_create-identity last_byte ab 2000 logged_in 7 100 no_sockets refl (omega arith)).0
