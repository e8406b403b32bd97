-- ===== src/Storage/SocialGraph.antt =====
-- The invariant of the contact tables (comments in src/storage/migrations/0001_init.sql and
-- src/domain/ports/ContactRepository.hpp). The children show that the transitions keep it.
pub mod Blocking
pub mod Connecting
pub mod Requesting
use picasso_backend.Base.{
  ◌≡◌, ◌≢◌, refl, true, Bool, Option, none, some, some_and, is_none, is_some, arith, pair_eq,
  if_both,
}
use picasso_backend.Base.Table.{
  IsKeyed, delete-IsKeyed, update-IsKeyed, upsert-IsKeyed, insert_or_ignore-IsKeyed,
}
use picasso_backend.Domain.Ids.{SteamId, Time}
use picasso_backend.Domain.Contact.{
  ContactLevel, imposter, ally, friend, allows_communication, is_imposter,
}
use picasso_backend.Storage.Rows.{Database, contact_key, request_key}
use picasso_backend.Storage.ContactQueries
use picasso_backend.Storage.ContactRepository.{
  RequestState, level_of, request_state, ensure_user, put_request, accept, decline, withdraw,
  remove, block, unblock, set_tier,
}
use picasso_backend.Storage.LevelViews.{
  level_of-block, level_of-remove, level_of-accept, level_of-unblock, level_of-set_tier,
  level_of-put_request, level_of-decline, level_of-withdraw, level_of-ensure_user,
}
use picasso_backend.Storage.RequestViews.{
  request_state-block, request_state-remove, request_state-accept, accept-pending,
  request_state-unblock, request_state-set_tier, request_state-put_request, request_state-decline,
  request_state-withdraw, request_state-ensure_user,
}

-- What holds of the rows of two users about each other.
pub record IsConsistent (ours theirs : Option ContactLevel) (sent received : Option RequestState)
    : Type 0 where
  -- Ally-ness is mutual.
  pub reciprocal : some_and allows_communication ours ≡ some_and allows_communication theirs
  -- A block leaves the other side without a row ...
  pub one_sided : some_and is_imposter ours ≡ true → is_none theirs ≡ true
  -- ... and without a request in either direction.
  pub none_sent : some_and is_imposter ours ≡ true → is_none sent ≡ true
  pub none_received : some_and is_imposter ours ≡ true → is_none received ≡ true

abbrev pub Pairwise : Database → SteamId → SteamId → Type 0
Pairwise db a b =
    IsConsistent (level_of a b db) (level_of b a db) (request_state a b db) (request_state b a db)

pub record IsSocial (db : Database) : Type 0 where
  pub keyed_contacts : IsKeyed contact_key db.contacts
  pub keyed_requests : IsKeyed request_key db.contact_requests
  pub no_self : (a : SteamId) → level_of a a db ≡ none
  pub no_self_request : (a : SteamId) → request_state a a db ≡ none
  pub consistent : (a b : SteamId) → Pairwise db a b
