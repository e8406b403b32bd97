-- ===== src/Storage/SessionRepository.antt =====
-- The sessions of logged-in users (src/storage/PgSessionRepository.cpp).
use picasso_backend.Base.{List, [], ◌∷◌, Option, none, some, Bytes}
use picasso_backend.Domain.Ids.{Time}
use picasso_backend.Domain.Session.{Session}
use picasso_backend.Storage.Rows.{Database, SessionRow}
use picasso_backend.Storage.ContactQueries.{create_user}
use picasso_backend.Storage.SessionQueries.{insert_session, select_session_by_hash, revoke_session}

abbrev pub to_row : Session → SessionRow
to_row session = record {
  token_hash = session.token_hash;
  steam_id = session.steam_id;
  created_at = session.created_at_epoch_ms;
  expires_at = session.expires_at_epoch_ms;
  revoked_at = session.revoke_at_epoch_ms;
}

abbrev pub to_session : SessionRow → Session
to_session row = record {
  token_hash = row.token_hash;
  steam_id = row.steam_id;
  created_at_epoch_ms = row.created_at;
  expires_at_epoch_ms = row.expires_at;
  revoke_at_epoch_ms = row.revoked_at;
}

-- `none` is the exception: the transaction is not committed.
unfoldable pub store : Session → Database → Option Database
unfolding insert_session
store session db = insert_session (to_row session) (create_user session.steam_id db)

-- The first row, if there is one.
unfoldable pub first_session : List SessionRow → Option Session
first_session [] = none
first_session (row ∷ rows) = some (to_session row)

unfoldable pub find_by_token_hash : Bytes → Database → Option Session
unfolding first_session
find_by_token_hash token_hash db = first_session (select_session_by_hash token_hash db)

unfoldable pub revoke : Bytes → Time → Database → Database
revoke token_hash now db = revoke_session token_hash now db
