-- ===== src/Transport/Http/AuthController/Handoff.antt =====
-- From the return of the browser to the token of the application
-- (src/transport/http/AuthController.hpp, src/service/AuthService.cpp).
use picasso_backend.Base.{
  ℕ, ◌+◌, ◌≡◌, refl, ap, codes, false, List, [], Option, none, some, Bytes, ltb, is_empty,
  if◌then◌else◌, arith,
}
use picasso_backend.Domain.Ids.{Time}
use picasso_backend.Storage.Rows.{Database}
use picasso_backend.Steam.OpenId.{find, verify}
use picasso_backend.Service.Auth.{
  IssuedToken, issued, pending_login_ttl_ms, complete_login, authenticate, claim_login, park_login,
}
use picasso_backend.Service.Auth.PendingMap.{Call, run}
use picasso_backend.Service.Auth.Pending.{claim-once}
use picasso_backend.Service.Auth.Issuing.{login-authenticates}
use picasso_backend.Transport.Http.Reply.{response, text_body, token_body, no_body}
use picasso_backend.Transport.Http.AuthController.{
  decode_param, collect, hand_over, auth_return, auth_poll, poll_reply, to_token_dto, state_param,
}

module _ (sha256 : Bytes → Bytes) (page : Bytes) where
  -- An assertion that comes with a state and is accepted is answered with the page, and the first
  -- poll with that state, at most 5 minutes after the login was parked, is answered with the
  -- token, with which the caller is authenticated as the verified user until the session ends. A
  -- second poll is answered with 204. Before the login any others may have been parked and claimed.
  pub auth_poll-hands_over :
      (post : Bytes → Option (ℕ × Option Bytes)) (random : Option Bytes)
      (query : List (Option Bytes × Option Bytes)) (raw : Option Bytes) (before : List Call)
      (db : Database) (now now_parked at again used : Time) (t : IssuedToken)
      → (complete_login sha256 (verify post (collect query [])) random now db).1 ≡ issued t
      → state_param (find (codes "state") (collect query [])) ≡ decode_param raw
      → is_empty (decode_param raw) ≡ false
      → ltb (now_parked + pending_login_ttl_ms) at ≡ false
      → let (s, shown) =
          auth_return sha256 page post random query now now_parked
            (record { db = db; pending = run before [] }) in
        let (s', first) = auth_poll raw at s in
        (verify post (collect query []) ≡ some t.steam_id)
        × (shown ≡ response 200 (text_body (codes "text/html; charset=utf-8") page))
        × (first ≡ response 200 (token_body (to_token_dto t)))
        × ((auth_poll raw again s').1 ≡ response 204 no_body)
        × (authenticate sha256 t.token used s'.db
            ≡ (if ltb used t.expires_at_epoch_ms then some t.steam_id else none))
  unfolding auth_return auth_poll hand_over run
  auth_poll-hands_over post random query raw before db now now_parked at again used t login same
        full soon =
      let works =
        login-authenticates sha256 (verify post (collect query [])) random now db t login used in
      let once = claim-once before [] [] (decode_param raw) t now_parked at again full tt tt in
      let waiting = park_login (decode_param raw) t now_parked (run before []) in
      let first : (claim_login (decode_param raw) at waiting).1 ≡ some t =
        ground (arith, soon, once) in
      rw (login, same, full) (works.0, refl, ap poll_reply first, ap poll_reply once.1, works.2)
