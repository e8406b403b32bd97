-- ===== src/Storage/SocialGraph/Connecting.antt =====
-- Accepting a request, changing a tier and removing a contact keep the contact invariant
-- (src/storage/PgContactRepository.cpp).
use picasso_backend.Base.{refl, Bool, arith, pair_eq, if_both}
use picasso_backend.Base.Table.{IsKeyed, delete-IsKeyed, update-IsKeyed, insert_or_ignore-IsKeyed}
use picasso_backend.Domain.Ids.{SteamId, Time}
use picasso_backend.Domain.Contact.{ContactLevel}
use picasso_backend.Storage.Rows.{Database, contact_key, request_key}
use picasso_backend.Storage.ContactQueries
use picasso_backend.Storage.ContactRepository.{accept, remove, set_tier}
use picasso_backend.Storage.LevelViews.{level_of-remove, level_of-accept, level_of-set_tier}
use picasso_backend.Storage.RequestViews.{
  request_state-remove, request_state-accept, accept-pending, request_state-set_tier,
}
use picasso_backend.Storage.SocialGraph.{Pairwise, IsSocial}

module _ (o x : SteamId) (now : Time) (db : Database) (s : IsSocial db) where
  remove-IsKeyed_contacts : IsKeyed contact_key (remove o x db).1.contacts
  unfolding remove ContactQueries.delete_connected_rows ContactQueries.delete_requests_between
      ContactQueries.delete_invites_between
  remove-IsKeyed_contacts =
      if_both (λ (r : Bool × Database). IsKeyed contact_key r.1.contacts) _
        (delete-IsKeyed contact_key _ db.contacts s.keyed_contacts) s.keyed_contacts

  remove-IsKeyed_requests : IsKeyed request_key (remove o x db).1.contact_requests
  unfolding remove ContactQueries.delete_connected_rows ContactQueries.delete_requests_between
      ContactQueries.delete_invites_between
  remove-IsKeyed_requests =
      if_both (λ (r : Bool × Database). IsKeyed request_key r.1.contact_requests) _
        (delete-IsKeyed request_key _ db.contact_requests s.keyed_requests) s.keyed_requests

  remove-Pairwise : (a b : SteamId) → Pairwise (remove o x db).1 a b
  remove-Pairwise a b = ground (
    arith,
    s.consistent a b,
    s.consistent b a,
    level_of-remove a b o x now db s.keyed_contacts,
    level_of-remove b a o x now db s.keyed_contacts,
    request_state-remove a b o x now db s.keyed_requests,
    request_state-remove b a o x now db s.keyed_requests,
  )

  pub remove-IsSocial : IsSocial (remove o x db).1
  remove-IsSocial = record {
    keyed_contacts = remove-IsKeyed_contacts;
    keyed_requests = remove-IsKeyed_requests;
    no_self = λ a. ground (arith, s.no_self a, level_of-remove a a o x now db s.keyed_contacts);
    no_self_request = λ a.
        ground (arith, s.no_self_request a, request_state-remove a a o x now db s.keyed_requests);
    consistent = remove-Pairwise;
  }

  accept-IsKeyed_contacts : IsKeyed contact_key (accept o x now db).1.contacts
  unfolding accept ContactQueries.delete_pending_request ContactQueries.insert_ally_if_absent
  accept-IsKeyed_contacts =
      if_both (λ (r : Bool × Database). IsKeyed contact_key r.1.contacts) _
        (insert_or_ignore-IsKeyed contact_key _ _
          (insert_or_ignore-IsKeyed contact_key _ db.contacts s.keyed_contacts))
        s.keyed_contacts

  accept-IsKeyed_requests : IsKeyed request_key (accept o x now db).1.contact_requests
  unfolding accept ContactQueries.delete_pending_request ContactQueries.insert_ally_if_absent
  accept-IsKeyed_requests =
      if_both (λ (r : Bool × Database). IsKeyed request_key r.1.contact_requests) _
        (delete-IsKeyed request_key _ db.contact_requests s.keyed_requests) s.keyed_requests

  accept-Pairwise : (a b : SteamId) → Pairwise (accept o x now db).1 a b
  accept-Pairwise a b = ground (
    arith,
    s.consistent a b,
    s.consistent b a,
    s.no_self_request a,
    accept-pending o x now db s.keyed_requests,
    level_of-accept a b o x now db,
    level_of-accept b a o x now db,
    request_state-accept a b o x now db s.keyed_requests,
    request_state-accept b a o x now db s.keyed_requests,
  )

  pub accept-IsSocial : IsSocial (accept o x now db).1
  accept-IsSocial = record {
    keyed_contacts = accept-IsKeyed_contacts;
    keyed_requests = accept-IsKeyed_requests;
    no_self = λ a. ground (
      arith,
      s.no_self a,
      s.no_self_request a,
      accept-pending o x now db s.keyed_requests,
      level_of-accept a a o x now db,
    );
    no_self_request = λ a.
        ground (arith, s.no_self_request a, request_state-accept a a o x now db s.keyed_requests);
    consistent = accept-Pairwise;
  }

  set_tier-IsKeyed_contacts :
      (l : ContactLevel) → IsKeyed contact_key (set_tier o x l db).1.contacts
  unfolding set_tier ContactQueries.update_tier
  set_tier-IsKeyed_contacts l =
      if_both (λ (r : Bool × Database). IsKeyed contact_key r.1.contacts) _ s.keyed_contacts
        (update-IsKeyed contact_key _ _ db.contacts (λ r. refl) s.keyed_contacts)

  set_tier-IsKeyed_requests :
      (l : ContactLevel) → IsKeyed request_key (set_tier o x l db).1.contact_requests
  unfolding set_tier ContactQueries.update_tier
  set_tier-IsKeyed_requests l =
      if_both (λ (r : Bool × Database). IsKeyed request_key r.1.contact_requests) _ s.keyed_requests
        s.keyed_requests

  set_tier-Pairwise : (l : ContactLevel) (a b : SteamId) → Pairwise (set_tier o x l db).1 a b
  set_tier-Pairwise l a b = ground (
    arith,
    s.consistent a b,
    s.consistent b a,
    level_of-set_tier a b o x now db l,
    level_of-set_tier b a o x now db l,
    request_state-set_tier a b o x now db l,
    request_state-set_tier b a o x now db l,
  )

  pub set_tier-IsSocial : (l : ContactLevel) → IsSocial (set_tier o x l db).1
  set_tier-IsSocial l = record {
    keyed_contacts = set_tier-IsKeyed_contacts l;
    keyed_requests = set_tier-IsKeyed_requests l;
    no_self = λ a. ground (arith, s.no_self a, level_of-set_tier a a o x now db l);
    no_self_request =
        λ a. ground (arith, s.no_self_request a, request_state-set_tier a a o x now db l);
    consistent = set_tier-Pairwise l;
  }
