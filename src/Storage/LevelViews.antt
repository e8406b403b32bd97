-- ===== src/Storage/LevelViews.antt =====
-- What each transition of the contact repository does to the level of every pair of users
-- (src/storage/PgContactRepository.cpp, src/storage/PicassoDatabaseClient.hpp).
use picasso_backend.Base.{
  ◌≡◌, refl, Bool, ◌&&◌, ◌||◌, Option, none, some, pair_eq, is_none, some_and, if◌then◌else◌, arith,
  inl, inr, Bool-cases, pair_beq,
}
use picasso_backend.Base.Table.{
  find_by-delete_keys, find_by-delete_where, find_by-update_where, find_by-upsert,
  find_by-insert_or_ignore, insert_or_ignore, IsKeyed, upsert, upsert-IsKeyed, exists,
  delete-absent, exists-find_by, exists-two_keys,
}
use picasso_backend.Domain.Ids.{SteamId, Time}
use picasso_backend.Domain.Contact.{ContactLevel, imposter, ally, allows_communication, is_imposter}
use picasso_backend.Storage.Rows.{Database, ContactRow, contact_key}
use picasso_backend.Storage.ContactQueries.{
  between, create_user, select_contact_level, upsert_request, delete_pending_request,
  mark_request_declined, delete_request, delete_requests_between, delete_invites_between,
  insert_ally_if_absent, upsert_imposter, delete_contact_row, delete_connected_rows,
  delete_imposter_row, update_tier,
}
use picasso_backend.Storage.ContactRepository.{
  level_of, ensure_user, put_request, accept, decline, withdraw, remove, block, unblock, set_tier,
}

abbrev pub is_pair : SteamId → SteamId → SteamId × SteamId → Bool
is_pair a b key = pair_beq key (a, b)

module _ (a b o x : SteamId) (now : Time) (db : Database) where
  abbrev level : Option ContactLevel
  level = level_of a b db

  pub level_of-ensure_user : level_of a b (ensure_user o db) ≡ level
  unfolding level_of select_contact_level ensure_user create_user
  level_of-ensure_user = refl

  pub level_of-put_request : level_of a b (put_request o x now db) ≡ level
  unfolding level_of select_contact_level put_request upsert_request
  level_of-put_request = refl

  pub level_of-decline : level_of a b (decline o x now db).1 ≡ level
  unfolding level_of select_contact_level decline mark_request_declined
  level_of-decline = refl

  pub level_of-withdraw : level_of a b (withdraw o x db) ≡ level
  unfolding level_of select_contact_level withdraw delete_request
  level_of-withdraw = refl

  -- Accepting adds the rows that are missing, and leaves a row that is there alone.
  pub level_of-accept : level_of a b (accept o x now db).1 ≡ (
      if (accept o x now db).0 && (is_none level && between o x (a, b)) then some ally else level)
  unfolding level_of select_contact_level accept delete_pending_request insert_ally_if_absent
  level_of-accept =
      let row₁ : ContactRow = record { owner_id = o; other_id = x; level = ally; since = now } in
      let row₂ : ContactRow = record { owner_id = x; other_id = o; level = ally; since = now } in
      let step₁ = find_by-insert_or_ignore contact_key (a, b) row₁ db.contacts in
      let step₂ =
        find_by-insert_or_ignore contact_key (a, b) row₂
          (insert_or_ignore contact_key row₁ db.contacts) in
      ground (arith, step₁, step₂)

  pub level_of-set_tier :
      (l : ContactLevel)
      → level_of a b (set_tier o x l db).1 ≡ (
          if allows_communication l && (is_pair o x (a, b) && some_and allows_communication level)
          then some l
          else level)
  unfolding level_of select_contact_level set_tier update_tier
  level_of-set_tier l =
      let step =
        find_by-update_where contact_key (a, b) (is_pair o x) (λ r. allows_communication r.level)
          db.contacts (λ r. record r { level = l }) (λ r. refl) in
      ground (arith, step)

  module _ (keyed : IsKeyed contact_key db.contacts) where
    -- The other side's row goes, whatever it says.
    pub level_of-block :
        level_of a b (block o x now db)
        ≡ (if is_pair x o (a, b) then none else if is_pair a b (o, x) then some imposter else level)
    unfolding level_of select_contact_level block create_user upsert_imposter delete_contact_row
        delete_requests_between delete_invites_between
    level_of-block =
        let row : ContactRow = record {
          owner_id = o;
          other_id = x;
          level = imposter;
          since = now;
        } in
        let f = λ (r : ContactRow). record r { level = imposter; since = now } in
        let step₁ = find_by-upsert contact_key (a, b) row f db.contacts (λ r. refl) in
        let step₂ =
          find_by-delete_keys contact_key (a, b) (is_pair x o)
            (upsert contact_key row f db.contacts)
            (upsert-IsKeyed contact_key row f db.contacts (λ r. refl) keyed) in
        ground (arith, step₁, step₂)

    pub level_of-remove :
        level_of a b (remove o x db).1
        ≡ (if between o x (a, b) && some_and allows_communication level then none else level)
    unfolding level_of select_contact_level remove delete_connected_rows delete_requests_between
        delete_invites_between
    level_of-remove =
        let p = λ (r : ContactRow). between o x (contact_key r) && allows_communication r.level in
        let step =
          find_by-delete_where contact_key (a, b) (between o x) (λ r. allows_communication r.level)
            db.contacts keyed in
        elim (Bool-cases (exists p db.contacts)) [
          | inl some_row ↦ ground (arith, some_row, step)
          | inr no_row ↦ ground (arith, no_row, step, delete-absent p db.contacts no_row)
        ]

    pub level_of-unblock :
        level_of a b (unblock o x db).1
        ≡ (if is_pair o x (a, b) && some_and is_imposter level then none else level)
    unfolding level_of select_contact_level unblock delete_imposter_row
    level_of-unblock =
        let step =
          find_by-delete_where contact_key (a, b) (is_pair o x) (λ r. is_imposter r.level)
            db.contacts keyed in
        ground (arith, step)

-- Unblocking reports a removal exactly if there was a block.
pub unblock_done :
    (o x : SteamId) (db : Database)
    → IsKeyed contact_key db.contacts
    → (unblock o x db).0 ≡ some_and is_imposter (level_of o x db)
unfolding level_of select_contact_level unblock delete_imposter_row
unblock_done o x db keyed =
    let step = exists-find_by contact_key (o, x) (λ r. is_imposter r.level) db.contacts keyed in
    ground (arith, step)

-- Removing a contact reports a removal exactly if one of the two rows is ally or friend.
pub remove_done :
    (o x : SteamId) (db : Database)
    → IsKeyed contact_key db.contacts
    → (remove o x db).0 ≡ (
        some_and allows_communication (level_of o x db)
        || some_and allows_communication (level_of x o db))
unfolding level_of select_contact_level remove delete_connected_rows
remove_done o x db keyed =
    let step =
      exists-two_keys contact_key (o, x) (x, o) (λ r. allows_communication r.level) db.contacts
        keyed in
    ground (arith, step)
