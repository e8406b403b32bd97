-- ===== src/Storage/SessionQueries.antt =====
-- The statements on the table of sessions (src/storage/PicassoDatabaseClient.hpp).
use picasso_backend.Base.{
  List, [], ◌∷◌, ◌++◌, Option, none, some, Bytes, bytes_eq, ◌==◌, if◌then◌else◌,
}
use picasso_backend.Base.Table.{select, update, exists}
use picasso_backend.Domain.Ids.{Time}
use picasso_backend.Storage.Rows.{Database, SessionRow}

-- No database where the PRIMARY KEY refuses the row.
unfoldable pub insert_session : SessionRow → Database → Option Database
insert_session r db =
    if exists (λ s. s.token_hash == r.token_hash) db.sessions
    then none
    else some (record db { sessions = db.sessions ++ r ∷ [] })

unfoldable pub select_session_by_hash : Bytes → Database → List SessionRow
select_session_by_hash token_hash db = select (λ s. s.token_hash == token_hash) db.sessions

unfoldable pub revoke_session : Bytes → Time → Database → Database
revoke_session token_hash revoked_at db = record db {
  sessions =
      update (λ s. s.token_hash == token_hash) (λ s. record s { revoked_at = some revoked_at })
        db.sessions;
}
