-- ===== src/Storage/ContactQueries.antt =====
-- The queries on users, contacts and contact requests (src/storage/PicassoDatabaseClient.hpp).
-- A WHERE clause is the Boolean test of its conditions; RETURNING is whether a row comes back.
-- Where the WHERE clause fixes the primary key, the result is the one row under it, if any.
use mathlib.Core.Option
use picasso_backend.Base.{
  ℕ, Bool, ◌&&◌, ◌||◌, List, Option, none, some, ◌==◌, nat_eq, pair_eq, is_none,
}
use picasso_backend.Base.Int.{ℤ, pos, ltb_ℤ}
use picasso_backend.Base.Table.{
  select, delete, update, exists, count, find_by, insert_or_ignore, upsert, order_desc,
}
use picasso_backend.Domain.Ids.{SteamId, Time}
use picasso_backend.Domain.Contact.{ContactLevel, imposter, ally, allows_communication, is_imposter}
use picasso_backend.Storage.Rows.{Database, ContactRow, RequestRow, contact_key, request_key}

unfoldable pub create_user : SteamId → Database → Database
create_user id db = record db { users = insert_or_ignore (λ u. u) id db.users }

unfoldable pub user_exists : SteamId → Database → Bool
user_exists id db = exists (λ u. u == id) db.users

unfoldable pub select_contact_level : SteamId → SteamId → Database → Option ContactLevel
select_contact_level owner other db =
    Option.map (λ r. r.level) (find_by contact_key (owner, other) db.contacts)

-- `(owner, other)` or the other way round.
abbrev pub between : SteamId → SteamId → SteamId × SteamId → Bool
between first second key = key == (first, second) || key == (second, first)

unfoldable pub select_can_communicate : SteamId → SteamId → Database → Bool
select_can_communicate first second db =
    count (λ r. between first second (contact_key r) && allows_communication r.level) db.contacts
    == 2

unfoldable pub select_contacts : SteamId → Database → List ContactRow
select_contacts owner db = order_desc (λ r. r.since) (select (λ r. r.owner_id == owner) db.contacts)

-- Neither declined nor expired.
abbrev pub is_pending : ℤ → RequestRow → Bool
is_pending min_created_at r = is_none r.declined_at && ltb_ℤ min_created_at (pos r.created_at)

unfoldable pub select_incoming_requests : SteamId → ℤ → Database → List RequestRow
select_incoming_requests id min_created_at db =
    order_desc (λ r. r.created_at)
      (select (λ r. r.to_id == id && is_pending min_created_at r) db.contact_requests)

unfoldable pub select_outgoing_requests : SteamId → ℤ → Database → List RequestRow
select_outgoing_requests id min_created_at db =
    order_desc (λ r. r.created_at)
      (select (λ r. r.from_id == id && is_pending min_created_at r) db.contact_requests)

unfoldable pub select_request_state : SteamId → SteamId → Database → Option RequestRow
select_request_state from to db = find_by request_key (from, to) db.contact_requests

unfoldable pub count_pending_requests_from : SteamId → ℤ → Database → ℕ
count_pending_requests_from from min_created_at db =
    count (λ r. r.from_id == from && is_pending min_created_at r) db.contact_requests

unfoldable pub count_requests_created_since : SteamId → ℤ → Database → ℕ
count_requests_created_since from since db =
    count (λ r. r.from_id == from && ltb_ℤ since (pos r.created_at)) db.contact_requests

unfoldable pub upsert_request : SteamId → SteamId → Time → Database → Database
upsert_request from to now db = record db {
  contact_requests =
      upsert request_key
        (record { from_id = from; to_id = to; created_at = now; declined_at = none })
        (λ r. record r { created_at = now; declined_at = none }) db.contact_requests;
}

unfoldable pub delete_pending_request : SteamId → SteamId → ℤ → Database → Bool × Database
delete_pending_request from to min_created_at db =
    let p = λ (r : RequestRow). request_key r == (from, to) && is_pending min_created_at r in
    (exists p db.contact_requests, record db { contact_requests = delete p db.contact_requests })

unfoldable pub mark_request_declined : SteamId → SteamId → Time → ℤ → Database → Bool × Database
mark_request_declined from to now min_created_at db =
    let p = λ (r : RequestRow). request_key r == (from, to) && is_pending min_created_at r in
    (
      exists p db.contact_requests,
      record db {
        contact_requests = update p (λ r. record r { declined_at = some now }) db.contact_requests;
      },
    )

unfoldable pub delete_request : SteamId → SteamId → Database → Database
delete_request from to db = record db {
  contact_requests = delete (λ r. request_key r == (from, to)) db.contact_requests;
}

unfoldable pub delete_requests_between : SteamId → SteamId → Database → Database
delete_requests_between first second db = record db {
  contact_requests = delete (λ r. between first second (request_key r)) db.contact_requests;
}

unfoldable pub insert_ally_if_absent : SteamId → SteamId → Time → Database → Database
insert_ally_if_absent owner other since db = record db {
  contacts =
      insert_or_ignore contact_key
        (record { owner_id = owner; other_id = other; level = ally; since = since }) db.contacts;
}

unfoldable pub upsert_imposter : SteamId → SteamId → Time → Database → Database
upsert_imposter owner other since db = record db {
  contacts =
      upsert contact_key
        (record { owner_id = owner; other_id = other; level = imposter; since = since })
        (λ r. record r { level = imposter; since = since }) db.contacts;
}

unfoldable pub delete_contact_row : SteamId → SteamId → Database → Database
delete_contact_row owner other db = record db {
  contacts = delete (λ r. contact_key r == (owner, other)) db.contacts;
}

unfoldable pub delete_connected_rows : SteamId → SteamId → Database → Bool × Database
delete_connected_rows first second db =
    let p =
      λ (r : ContactRow). between first second (contact_key r) && allows_communication r.level in
    (exists p db.contacts, record db { contacts = delete p db.contacts })

unfoldable pub delete_imposter_row : SteamId → SteamId → Database → Bool × Database
delete_imposter_row owner other db =
    let p = λ (r : ContactRow). contact_key r == (owner, other) && is_imposter r.level in
    (exists p db.contacts, record db { contacts = delete p db.contacts })

unfoldable pub update_tier : SteamId → SteamId → ContactLevel → Database → Bool × Database
update_tier owner other level db =
    let p = λ (r : ContactRow). contact_key r == (owner, other) && allows_communication r.level in
    (
      exists p db.contacts,
      record db { contacts = update p (λ r. record r { level = level }) db.contacts },
    )

unfoldable pub delete_invites_between : SteamId → SteamId → Database → Database
delete_invites_between first second db = record db {
  palette_invites =
      delete (λ r. between first second (r.inviter_id, r.invitee_id)) db.palette_invites;
}
