-- ===== src/Storage/ContactRepository.antt =====
-- The contact repository over the queries (src/storage/PgContactRepository.cpp). A method that
-- reads the clock itself takes that reading as `now`. A method that opens a transaction and
-- returns before the commit leaves the database as it was.
use mathlib.Core.Option
use picasso_backend.Base.{ℕ, Bool, true, false, not, [], Option, map, if◌then◌else◌}
use picasso_backend.Base.Int.{ℤ, sub_ℕ}
use picasso_backend.Domain.Ids.{SteamId, Time}
use picasso_backend.Domain.Contact.{
  ContactLevel, Contact, ContactsSnapshot, allows_communication, contact_request_ttl_ms,
}
use picasso_backend.Storage.Rows.{Database, ContactRow, RequestRow}
use picasso_backend.Storage.ContactQueries

abbrev pub oldest_live_request : Time → ℤ
oldest_live_request now = sub_ℕ now contact_request_ttl_ms

unfoldable pub user_exists : SteamId → Database → Bool
user_exists id db = ContactQueries.user_exists id db

unfoldable pub ensure_user : SteamId → Database → Database
ensure_user id db = ContactQueries.create_user id db

unfoldable pub level_of : SteamId → SteamId → Database → Option ContactLevel
level_of owner other db = ContactQueries.select_contact_level owner other db

unfoldable pub can_communicate : SteamId → SteamId → Database → Bool
can_communicate first second db = ContactQueries.select_can_communicate first second db

abbrev pub to_contact : ContactRow → Contact
to_contact r = record { other = r.other_id; level = r.level; since_epoch_ms = r.since }

unfoldable pub snapshot : SteamId → Time → Database → ContactsSnapshot
snapshot me now db = record {
  contacts = map to_contact (ContactQueries.select_contacts me db);
  incoming =
      map (λ r. record { other = r.from_id; created_at_epoch_ms = r.created_at })
        (ContactQueries.select_incoming_requests me (oldest_live_request now) db);
  outgoing =
      map (λ r. record { other = r.to_id; created_at_epoch_ms = r.created_at })
        (ContactQueries.select_outgoing_requests me (oldest_live_request now) db);
  palette_invites = [];
}

pub record RequestState : Type 0 where
  pub created_at_epoch_ms : Time
  pub declined_at_epoch_ms : Option Time

abbrev pub to_request_state : RequestRow → RequestState
to_request_state r = record {
  created_at_epoch_ms = r.created_at;
  declined_at_epoch_ms = r.declined_at;
}

unfoldable pub request_state : SteamId → SteamId → Database → Option RequestState
request_state from to db =
    Option.map to_request_state (ContactQueries.select_request_state from to db)

unfoldable pub count_pending_from : SteamId → Time → Database → ℕ
count_pending_from from now db =
    ContactQueries.count_pending_requests_from from (oldest_live_request now) db

unfoldable pub count_created_since : SteamId → ℤ → Database → ℕ
count_created_since from since db = ContactQueries.count_requests_created_since from since db

unfoldable pub put_request : SteamId → SteamId → Time → Database → Database
put_request from to now db = ContactQueries.upsert_request from to now db

unfoldable pub accept : SteamId → SteamId → Time → Database → Bool × Database
accept from to now db =
    let (deleted, db') =
      ContactQueries.delete_pending_request from to (oldest_live_request now) db in
    if deleted
    then (
      true,
      ContactQueries.insert_ally_if_absent to from now
          (ContactQueries.insert_ally_if_absent from to now db'),
    )
    else (false, db)

unfoldable pub decline : SteamId → SteamId → Time → Database → Bool × Database
decline from to now db =
    ContactQueries.mark_request_declined from to now (oldest_live_request now) db

unfoldable pub withdraw : SteamId → SteamId → Database → Database
withdraw from to db = ContactQueries.delete_request from to db

unfoldable pub remove : SteamId → SteamId → Database → Bool × Database
remove first second db =
    let (connected, db') = ContactQueries.delete_connected_rows first second db in
    if connected
    then (
      true,
      ContactQueries.delete_invites_between first second
          (ContactQueries.delete_requests_between first second db'),
    )
    else (false, db)

unfoldable pub block : SteamId → SteamId → Time → Database → Database
block owner other now db =
    let db₁ = ContactQueries.create_user other db in
    let db₂ = ContactQueries.upsert_imposter owner other now db₁ in
    let db₃ = ContactQueries.delete_contact_row other owner db₂ in
    let db₄ = ContactQueries.delete_requests_between owner other db₃ in
    ContactQueries.delete_invites_between owner other db₄

unfoldable pub unblock : SteamId → SteamId → Database → Bool × Database
unblock owner other db = ContactQueries.delete_imposter_row owner other db

unfoldable pub set_tier : SteamId → SteamId → ContactLevel → Database → Bool × Database
set_tier owner other level db =
    if not (allows_communication level)
    then (false, db)
    else ContactQueries.update_tier owner other level db
