-- ===== src/App/System/Logins.antt =====
-- Logins change neither the contacts nor the messages (src/service/AuthService.cpp,
-- src/transport/http/AuthController.hpp).
use picasso_backend.Base.{
  ◌≡◌, refl, subst, sym, List, Option, none, some, Bytes, ℕ, is_empty, inl, inr, Bool-cases, ◌==◌,
  bytes_eq,
}
use picasso_backend.Base.Table.{exists}
use picasso_backend.Domain.Ids.{SteamId, Time}
use picasso_backend.Storage.Rows.{Database}
use picasso_backend.Storage.ContactQueries.{create_user}
use picasso_backend.Storage.SessionQueries.{insert_session, revoke_session}
use picasso_backend.Storage.SessionRepository.{store, revoke, to_row}
use picasso_backend.Service.Auth.{
  Login, not_verified, failed, issued, to_hex, new_session, complete_login, logout,
}
use picasso_backend.Transport.Http.AuthController.{
  LoginState, hand_over, auth_return, auth_logout, auth_poll,
}
use picasso_backend.App.System.Keeping.{IsFrame}

module _ (sha256 : Bytes → Bytes) (page : Bytes) where
  hand_over-db :
      (login : Login) (state : Bytes) (now : Time) (s : LoginState)
      → (hand_over sha256 page login state now s).0.db ≡ s.db
  unfolding hand_over
  hand_over-db not_verified state now s = refl
  hand_over-db failed state now s = refl
  hand_over-db (issued t) state now s = elim (Bool-cases (is_empty state)) [
    | inl none_given ↦ rw none_given refl
    | inr given ↦ rw given refl
  ]

module _ (P : Database → Type 0) (frame : IsFrame P) (sha256 : Bytes → Bytes) (page : Bytes) where
  complete_login-keeps :
      (verified : Option SteamId) (random : Option Bytes) (now : Time) (db : Database)
      → P db
      → P (complete_login sha256 verified random now db).0
  unfolding complete_login store insert_session create_user
  complete_login-keeps none random now db h = h
  complete_login-keeps (some id) none now db h = h
  complete_login-keeps (some id) (some random) now db h =
      let row = to_row (new_session sha256 (to_hex random) id now) in
      elim (Bool-cases (exists (λ s. s.token_hash == row.token_hash) db.sessions)) [
        | inl taken ↦ rw taken h
        | inr new ↦ rw new (frame db _ refl refl refl refl h)
      ]

  pub auth_return-keeps :
      (post : Bytes → Option (ℕ × Option Bytes)) (random : Option Bytes)
      (query : List (Option Bytes × Option Bytes)) (now now_parked : Time) (s : LoginState)
      → P s.db
      → P (auth_return sha256 page post random query now now_parked s).0.db
  unfolding auth_return
  auth_return-keeps post random query now now_parked s h =
      subst P (sym (hand_over-db sha256 page _ _ now_parked _))
        (complete_login-keeps _ random now s.db h)

  pub auth_logout-keeps :
      (authorization : Bytes) (now : Time) (s : LoginState)
      → P s.db
      → P (auth_logout sha256 page authorization now s).0.db
  unfolding auth_logout logout revoke revoke_session
  auth_logout-keeps authorization now s h = frame s.db _ refl refl refl refl h

pub auth_poll-db :
    (state : Option Bytes) (now : Time) (s : LoginState) → (auth_poll state now s).0.db ≡ s.db
unfolding auth_poll
auth_poll-db state now s = refl
