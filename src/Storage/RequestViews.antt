-- ===== src/Storage/RequestViews.antt =====
-- What each transition of the contact repository does to the request of every pair of users
-- (src/storage/PgContactRepository.cpp, src/storage/PicassoDatabaseClient.hpp).
use mathlib.Core.Option
use picasso_backend.Base.{
  ◌≡◌, refl, Bool, ◌&&◌, Option, none, some, pair_eq, is_none, some_and, if◌then◌else◌, arith, inl,
  inr, Bool-cases,
}
use picasso_backend.Base.Int.{pos, ltb_ℤ}
use picasso_backend.Base.Table.{
  find_by-delete_keys, find_by-delete_where, find_by-update_where, find_by-upsert, IsKeyed,
  exists-find_by, exists, delete-absent,
}
use picasso_backend.Domain.Ids.{SteamId, Time}
use picasso_backend.Domain.Contact.{ContactLevel}
use picasso_backend.Storage.Rows.{Database, RequestRow, request_key}
use picasso_backend.Storage.ContactQueries.{
  between, is_pending, select_request_state, upsert_request, delete_pending_request,
  mark_request_declined, delete_request, delete_requests_between, create_user,
  delete_invites_between, insert_ally_if_absent, upsert_imposter, delete_contact_row,
  delete_connected_rows, delete_imposter_row, update_tier,
}
use picasso_backend.Storage.ContactRepository.{
  RequestState, request_state, oldest_live_request, ensure_user, put_request, accept, decline,
  withdraw, remove, block, unblock, set_tier,
}
use picasso_backend.Storage.LevelViews.{is_pair}

-- The test of the queries, on the state of a request.
abbrev pub pending_at : Time → RequestState → Bool
pending_at now s =
    is_none s.declined_at_epoch_ms && ltb_ℤ (oldest_live_request now) (pos s.created_at_epoch_ms)

abbrev pub declined : Time → RequestState → RequestState
declined now s = if pending_at now s then record s { declined_at_epoch_ms = some now } else s

module _ (a b o x : SteamId) (now : Time) (db : Database) where
  abbrev state : Option RequestState
  state = request_state a b db

  pub request_state-ensure_user : request_state a b (ensure_user o db) ≡ state
  unfolding request_state select_request_state ensure_user create_user
  request_state-ensure_user = refl

  pub request_state-unblock : request_state a b (unblock o x db).1 ≡ state
  unfolding request_state select_request_state unblock delete_imposter_row
  request_state-unblock = refl

  pub request_state-put_request : request_state a b (put_request o x now db) ≡ (
      if is_pair a b (o, x)
      then some (record { created_at_epoch_ms = now; declined_at_epoch_ms = none })
      else state)
  unfolding request_state select_request_state put_request upsert_request
  request_state-put_request =
      let row : RequestRow = record {
        from_id = o;
        to_id = x;
        created_at = now;
        declined_at = none;
      } in
      let step =
        find_by-upsert request_key (a, b) row
          (λ r. record r { created_at = now; declined_at = none }) db.contact_requests
          (λ r. refl) in
      ground (arith, step)

  pub request_state-decline :
      request_state a b (decline o x now db).1
      ≡ (if is_pair o x (a, b) then Option.map (declined now) state else state)
  unfolding request_state select_request_state decline mark_request_declined
  request_state-decline =
      let step =
        find_by-update_where request_key (a, b) (is_pair o x) (is_pending (oldest_live_request now))
          db.contact_requests (λ r. record r { declined_at = some now }) (λ r. refl) in
      ground (arith, step)

  module _ (keyed : IsKeyed request_key db.contact_requests) where
    pub request_state-withdraw :
        request_state a b (withdraw o x db) ≡ (if is_pair o x (a, b) then none else state)
    unfolding request_state select_request_state withdraw delete_request
    request_state-withdraw =
        let step = find_by-delete_keys request_key (a, b) (is_pair o x) db.contact_requests keyed in
        ground (arith, step)

    pub request_state-block :
        request_state a b (block o x now db) ≡ (if between o x (a, b) then none else state)
    unfolding request_state select_request_state block create_user upsert_imposter
        delete_contact_row delete_requests_between delete_invites_between
    request_state-block =
        let step = find_by-delete_keys request_key (a, b) (between o x) db.contact_requests keyed in
        ground (arith, step)

    pub request_state-remove :
        request_state a b (remove o x db).1
        ≡ (if (remove o x db).0 && between o x (a, b) then none else state)
    unfolding request_state select_request_state remove delete_connected_rows
        delete_requests_between delete_invites_between
    request_state-remove =
        let step = find_by-delete_keys request_key (a, b) (between o x) db.contact_requests keyed in
        ground (arith, step)

    pub request_state-accept :
        request_state a b (accept o x now db).1
        ≡ (if is_pair o x (a, b) && some_and (pending_at now) state then none else state)
    unfolding request_state select_request_state accept delete_pending_request insert_ally_if_absent
    request_state-accept =
        let p = λ (r : RequestRow).
          is_pair o x (request_key r) && is_pending (oldest_live_request now) r in
        let step =
          find_by-delete_where request_key (a, b) (is_pair o x)
            (is_pending (oldest_live_request now)) db.contact_requests keyed in
        elim (Bool-cases (exists p db.contact_requests)) [
          | inl some_row ↦ ground (arith, some_row, step)
          | inr no_row ↦ ground (arith, no_row, step, delete-absent p db.contact_requests no_row)
        ]

  pub request_state-set_tier : (l : ContactLevel) → request_state a b (set_tier o x l db).1 ≡ state
  unfolding request_state select_request_state set_tier update_tier
  request_state-set_tier l = ground arith

module _ (o x : SteamId) (now : Time) (db : Database) where
  -- Accepting succeeds exactly if the request is there, undeclined and unexpired.
  pub accept-pending :
      IsKeyed request_key db.contact_requests
      → (accept o x now db).0 ≡ some_and (pending_at now) (request_state o x db)
  unfolding request_state select_request_state accept delete_pending_request
  accept-pending keyed =
      let step =
        exists-find_by request_key (o, x) (is_pending (oldest_live_request now)) db.contact_requests
          keyed in
      ground (arith, step)
