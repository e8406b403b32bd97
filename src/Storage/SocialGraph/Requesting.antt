-- ===== src/Storage/SocialGraph/Requesting.antt =====
-- Storing, declining and withdrawing a request keep the contact invariant
-- (src/storage/PgContactRepository.cpp).
use picasso_backend.Base.{◌≡◌, ◌≢◌, refl, false, some_and, arith, pair_eq}
use picasso_backend.Base.Table.{IsKeyed, delete-IsKeyed, update-IsKeyed, upsert-IsKeyed}
use picasso_backend.Domain.Ids.{SteamId, Time}
use picasso_backend.Domain.Contact.{is_imposter}
use picasso_backend.Storage.Rows.{Database, contact_key, request_key}
use picasso_backend.Storage.ContactQueries
use picasso_backend.Storage.ContactRepository.{
  level_of, ensure_user, put_request, decline, withdraw,
}
use picasso_backend.Storage.LevelViews.{
  level_of-put_request, level_of-decline, level_of-withdraw, level_of-ensure_user,
}
use picasso_backend.Storage.RequestViews.{
  request_state-put_request, request_state-decline, request_state-withdraw,
  request_state-ensure_user,
}
use picasso_backend.Storage.SocialGraph.{Pairwise, IsSocial}

-- A request is stored between two users only if neither has blocked the other.
abbrev pub Unblocked : SteamId → SteamId → Database → Type 0
Unblocked o x db =
    (some_and is_imposter (level_of o x db) ≡ false)
    × (some_and is_imposter (level_of x o db) ≡ false)

module _ (o x : SteamId) (now : Time) (db : Database) (s : IsSocial db) where
  put_request-IsKeyed_contacts : IsKeyed contact_key (put_request o x now db).contacts
  unfolding put_request ContactQueries.upsert_request
  put_request-IsKeyed_contacts = s.keyed_contacts

  put_request-IsKeyed_requests : IsKeyed request_key (put_request o x now db).contact_requests
  unfolding put_request ContactQueries.upsert_request
  put_request-IsKeyed_requests =
      upsert-IsKeyed request_key _ _ db.contact_requests (λ r. refl) s.keyed_requests

  put_request-Pairwise : Unblocked o x db → (a b : SteamId) → Pairwise (put_request o x now db) a b
  put_request-Pairwise u a b = ground (
    arith,
    u.0,
    u.1,
    s.consistent a b,
    s.consistent b a,
    level_of-put_request a b o x now db,
    level_of-put_request b a o x now db,
    request_state-put_request a b o x now db,
    request_state-put_request b a o x now db,
  )

  pub put_request-IsSocial : o ≢ x → Unblocked o x db → IsSocial (put_request o x now db)
  put_request-IsSocial d u = record {
    keyed_contacts = put_request-IsKeyed_contacts;
    keyed_requests = put_request-IsKeyed_requests;
    no_self = λ a. ground (arith, s.no_self a, level_of-put_request a a o x now db);
    no_self_request =
        λ a. ground (arith, s.no_self_request a, request_state-put_request a a o x now db);
    consistent = put_request-Pairwise u;
  }

  decline-IsKeyed_contacts : IsKeyed contact_key (decline o x now db).1.contacts
  unfolding decline ContactQueries.mark_request_declined
  decline-IsKeyed_contacts = s.keyed_contacts

  decline-IsKeyed_requests : IsKeyed request_key (decline o x now db).1.contact_requests
  unfolding decline ContactQueries.mark_request_declined
  decline-IsKeyed_requests =
      update-IsKeyed request_key _ _ db.contact_requests (λ r. refl) s.keyed_requests

  decline-Pairwise : (a b : SteamId) → Pairwise (decline o x now db).1 a b
  decline-Pairwise a b = ground (
    arith,
    s.consistent a b,
    s.consistent b a,
    level_of-decline a b o x now db,
    level_of-decline b a o x now db,
    request_state-decline a b o x now db,
    request_state-decline b a o x now db,
  )

  pub decline-IsSocial : IsSocial (decline o x now db).1
  decline-IsSocial = record {
    keyed_contacts = decline-IsKeyed_contacts;
    keyed_requests = decline-IsKeyed_requests;
    no_self = λ a. ground (arith, s.no_self a, level_of-decline a a o x now db);
    no_self_request =
        λ a. ground (arith, s.no_self_request a, request_state-decline a a o x now db);
    consistent = decline-Pairwise;
  }

  withdraw-IsKeyed_contacts : IsKeyed contact_key (withdraw o x db).contacts
  unfolding withdraw ContactQueries.delete_request
  withdraw-IsKeyed_contacts = s.keyed_contacts

  withdraw-IsKeyed_requests : IsKeyed request_key (withdraw o x db).contact_requests
  unfolding withdraw ContactQueries.delete_request
  withdraw-IsKeyed_requests = delete-IsKeyed request_key _ db.contact_requests s.keyed_requests

  withdraw-Pairwise : (a b : SteamId) → Pairwise (withdraw o x db) a b
  withdraw-Pairwise a b = ground (
    arith,
    s.consistent a b,
    s.consistent b a,
    level_of-withdraw a b o x now db,
    level_of-withdraw b a o x now db,
    request_state-withdraw a b o x now db s.keyed_requests,
    request_state-withdraw b a o x now db s.keyed_requests,
  )

  pub withdraw-IsSocial : IsSocial (withdraw o x db)
  withdraw-IsSocial = record {
    keyed_contacts = withdraw-IsKeyed_contacts;
    keyed_requests = withdraw-IsKeyed_requests;
    no_self = λ a. ground (arith, s.no_self a, level_of-withdraw a a o x now db);
    no_self_request = λ a.
        ground (arith, s.no_self_request a, request_state-withdraw a a o x now db s.keyed_requests);
    consistent = withdraw-Pairwise;
  }

  ensure_user-IsKeyed_contacts : IsKeyed contact_key (ensure_user x db).contacts
  unfolding ensure_user ContactQueries.create_user
  ensure_user-IsKeyed_contacts = s.keyed_contacts

  ensure_user-IsKeyed_requests : IsKeyed request_key (ensure_user x db).contact_requests
  unfolding ensure_user ContactQueries.create_user
  ensure_user-IsKeyed_requests = s.keyed_requests

  ensure_user-Pairwise : (a b : SteamId) → Pairwise (ensure_user x db) a b
  ensure_user-Pairwise a b = ground (
    arith,
    s.consistent a b,
    level_of-ensure_user a b x o now db,
    level_of-ensure_user b a x o now db,
    request_state-ensure_user a b x o now db,
    request_state-ensure_user b a x o now db,
  )

  pub ensure_user-IsSocial : IsSocial (ensure_user x db)
  ensure_user-IsSocial = record {
    keyed_contacts = ensure_user-IsKeyed_contacts;
    keyed_requests = ensure_user-IsKeyed_requests;
    no_self = λ a. ground (arith, s.no_self a, level_of-ensure_user a a x o now db);
    no_self_request =
        λ a. ground (arith, s.no_self_request a, request_state-ensure_user a a x o now db);
    consistent = ensure_user-Pairwise;
  }
