-- ===== src/Storage/SocialGraph/Blocking.antt =====
-- Blocking and unblocking keep the contact invariant (src/storage/PgContactRepository.cpp).
use picasso_backend.Base.{◌≢◌, refl, arith, pair_eq}
use picasso_backend.Base.Table.{IsKeyed, delete-IsKeyed, upsert-IsKeyed}
use picasso_backend.Domain.Ids.{SteamId, Time}
use picasso_backend.Storage.Rows.{Database, contact_key, request_key}
use picasso_backend.Storage.ContactQueries
use picasso_backend.Storage.ContactRepository.{block, unblock}
use picasso_backend.Storage.LevelViews.{level_of-block, level_of-unblock}
use picasso_backend.Storage.RequestViews.{request_state-block, request_state-unblock}
use picasso_backend.Storage.SocialGraph.{Pairwise, IsSocial}

module _ (o x : SteamId) (now : Time) (db : Database) (s : IsSocial db) where
  block-IsKeyed_contacts : IsKeyed contact_key (block o x now db).contacts
  unfolding block ContactQueries.upsert_imposter ContactQueries.delete_contact_row
      ContactQueries.create_user ContactQueries.delete_requests_between
      ContactQueries.delete_invites_between
  block-IsKeyed_contacts =
      delete-IsKeyed contact_key _ _
        (upsert-IsKeyed contact_key _ _ db.contacts (λ r. refl) s.keyed_contacts)

  block-IsKeyed_requests : IsKeyed request_key (block o x now db).contact_requests
  unfolding block ContactQueries.upsert_imposter ContactQueries.delete_contact_row
      ContactQueries.create_user ContactQueries.delete_requests_between
      ContactQueries.delete_invites_between
  block-IsKeyed_requests = delete-IsKeyed request_key _ db.contact_requests s.keyed_requests

  block-Pairwise : o ≢ x → (a b : SteamId) → Pairwise (block o x now db) a b
  block-Pairwise d a b = ground (
    arith,
    s.consistent a b,
    s.consistent b a,
    level_of-block a b o x now db s.keyed_contacts,
    level_of-block b a o x now db s.keyed_contacts,
    request_state-block a b o x now db s.keyed_requests,
    request_state-block b a o x now db s.keyed_requests,
  )

  pub block-IsSocial : o ≢ x → IsSocial (block o x now db)
  block-IsSocial d = record {
    keyed_contacts = block-IsKeyed_contacts;
    keyed_requests = block-IsKeyed_requests;
    no_self = λ a. ground (arith, s.no_self a, level_of-block a a o x now db s.keyed_contacts);
    no_self_request = λ a.
        ground (arith, s.no_self_request a, request_state-block a a o x now db s.keyed_requests);
    consistent = block-Pairwise d;
  }

  unblock-IsKeyed_contacts : IsKeyed contact_key (unblock o x db).1.contacts
  unfolding unblock ContactQueries.delete_imposter_row
  unblock-IsKeyed_contacts = delete-IsKeyed contact_key _ db.contacts s.keyed_contacts

  unblock-IsKeyed_requests : IsKeyed request_key (unblock o x db).1.contact_requests
  unfolding unblock ContactQueries.delete_imposter_row
  unblock-IsKeyed_requests = s.keyed_requests

  unblock-Pairwise : (a b : SteamId) → Pairwise (unblock o x db).1 a b
  unblock-Pairwise a b = ground (
    arith,
    s.consistent a b,
    s.consistent b a,
    level_of-unblock a b o x now db s.keyed_contacts,
    level_of-unblock b a o x now db s.keyed_contacts,
    request_state-unblock a b o x now db,
    request_state-unblock b a o x now db,
  )

  pub unblock-IsSocial : IsSocial (unblock o x db).1
  unblock-IsSocial = record {
    keyed_contacts = unblock-IsKeyed_contacts;
    keyed_requests = unblock-IsKeyed_requests;
    no_self = λ a. ground (arith, s.no_self a, level_of-unblock a a o x now db s.keyed_contacts);
    no_self_request =
        λ a. ground (arith, s.no_self_request a, request_state-unblock a a o x now db);
    consistent = unblock-Pairwise;
  }
