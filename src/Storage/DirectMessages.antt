-- ===== src/Storage/DirectMessages.antt =====
-- There is one dm for two users (src/storage/PgConversationRepository.cpp, `getOrCreateDm`).
use picasso_backend.Base.{
  ℕ, ◌+◌, ◌^◌, ◌<◌, ◌≤◌, ◌≡◌, ◌≢◌, refl, ◌∙◌, ap, min, max, true, false, [], ◌∷◌, ◌++◌, Option,
  none, some, nat_eq, pair_eq, ==_refl, arith, Option-cases, inl, inr,
}
use picasso_backend.Base.Int.{ltb_ℤ}
use picasso_backend.Domain.Conversation.{dm}
use picasso_backend.Base.Table.{find_by, find_by-snoc}
use picasso_backend.Domain.Ids.{SteamId, ConversationId, Time}
use picasso_backend.Storage.Rows.{Database, ChatRow}
use picasso_backend.Storage.ConversationQueries.{
  chat_key, as_int64, select_dm_between, insert_conversation_row, insert_chat_row,
}
use picasso_backend.Storage.ConversationRepository.{
  DmResult, find_dm, insert_dm, find_winner, create_dm, get_or_create_dm,
}

-- The pair in the order of the columns.
abbrev pub dm_of : SteamId → SteamId → Database → Option ConversationId
dm_of first second db = find_dm (min first second) (max first second) db

get_or_create_dm-found :
    (first second : SteamId) (now : Time) (db : Database) (id : ConversationId)
    → dm_of first second db ≡ some id
    → get_or_create_dm first second now db ≡ (db, some (record { id = id; created = false }))
unfolding get_or_create_dm
get_or_create_dm-found first second now db id h = rw (h, get_or_create_dm) refl

swap : (a b : ℕ) → min a b ≡ min b a
swap a b = omega arith

swap_max : (a b : ℕ) → max a b ≡ max b a
swap_max a b = omega arith

-- The database where an id of the sequence is taken and nothing else has changed.
abbrev pub with_id_given : Database → Database
with_id_given db = record db { next_conversation_id = db.next_conversation_id + 1 }

find_dm-with_id_given :
    (low high : SteamId) (db : Database) → find_dm low high (with_id_given db) ≡ find_dm low high db
unfolding find_dm select_dm_between
find_dm-with_id_given low high db = refl

insert_dm-thrown :
    (low high : SteamId) (now : Time) (db : Database)
    → (insert_dm low high now db).1 ≡ none
    → (insert_dm low high now db).0 ≡ with_id_given db
unfolding insert_dm insert_conversation_row
insert_dm-thrown low high now db h = ground (arith, h)

create_dm-thrown :
    (low high : SteamId) (now : Time) (db : Database)
    → (create_dm low high now db).1 ≡ none
    → (create_dm low high now db).0 ≡ with_id_given db
unfolding create_dm
create_dm-thrown low high now db h = ground (arith, h, insert_dm-thrown low high now db)

-- A dm that is refused takes an id and leaves nothing else.
pub get_or_create_dm-thrown :
    (first second : SteamId) (now : Time) (db : Database)
    → (get_or_create_dm first second now db).1 ≡ none
    → (get_or_create_dm first second now db).0 ≡ with_id_given db
unfolding get_or_create_dm
get_or_create_dm-thrown first second now db h =
    ground (arith, h, create_dm-thrown (min first second) (max first second) now db)

-- The database after a new dm.
abbrev with_dm : SteamId → SteamId → Time → Database → Database
with_dm low high now db =
    let db' = (insert_conversation_row dm now db).1 in
    record db' {
      chat =
          db.chat
          ++ record { conversation_id = db.next_conversation_id; member_a = low; member_b = high }
            ∷ [];
    }

module _ (low high : SteamId) (now : Time) (db : Database) (h : find_dm low high db ≡ none) where
  unstored : find_by chat_key (low, high) db.chat ≡ none
  unfolding find_dm select_dm_between
  unstored = elim (Option-cases (find_by chat_key (low, high) db.chat)) [
    | inl absent ↦ absent
    | inr (r, found) ↦ cc (h, found)
  ]

  insert_chat_row-ordered :
      ltb_ℤ (as_int64 low) (as_int64 high) ≡ true
      → insert_dm low high now db
        ≡ (with_dm low high now db, some (record { id = db.next_conversation_id; created = true }))
  unfolding insert_dm insert_conversation_row insert_chat_row
  insert_chat_row-ordered o = ground (arith, o, unstored)

  insert_chat_row-refused :
      ltb_ℤ (as_int64 low) (as_int64 high) ≡ false
      → insert_dm low high now db ≡ (with_id_given db, none)
  unfolding insert_dm insert_conversation_row insert_chat_row
  insert_chat_row-refused o = ground (arith, o)

  find_dm-with_dm : find_dm low high (with_dm low high now db) ≡ some db.next_conversation_id
  unfolding find_dm select_dm_between insert_conversation_row
  find_dm-with_dm =
      let row : ChatRow = record {
        conversation_id = db.next_conversation_id;
        member_a = low;
        member_b = high;
      } in
      rw (find_by-snoc chat_key (low, high) row db.chat, unstored)
        (ground (arith, ==_refl {A = SteamId × SteamId} (low, high)))

ordered :
    (a b : ℕ)
    → a ≢ b
    → a < 2 ^ 63
    → b < 2 ^ 63
    → ltb_ℤ (as_int64 (min a b)) (as_int64 (max a b)) ≡ true
ordered a b d f s = ground (arith, d)

found_again :
    (first second : SteamId) (db : Database) (later : Time) (id : ConversationId)
    → dm_of first second db ≡ some id
    → get_or_create_dm second first later db ≡ (db, some (record { id = id; created = false }))
found_again first second db later id h = get_or_create_dm-found second first later db id (
    ap (λ a. find_dm a (max second first) db) (swap second first)
    ∙ ap (λ b. find_dm (min first second) b db) (swap_max second first)
    ∙ h)

module _ (first second : SteamId) (now : Time) (db : Database) where
  created_dm :
      dm_of first second db ≡ none
      → ltb_ℤ (as_int64 (min first second)) (as_int64 (max first second)) ≡ true
      → get_or_create_dm first second now db ≡ (
        with_dm (min first second) (max first second) now db,
        some (record { id = db.next_conversation_id; created = true }),
      )
  unfolding get_or_create_dm create_dm
  created_dm h o =
      rw (h, get_or_create_dm)
        (ground (arith, insert_chat_row-ordered (min first second) (max first second) now db h o))

  -- For two different users whose ids are below 2 ^ 63, a dm is found or made. Afterwards it is the
  -- dm of the two, and asking again, in either order and at any time, gives the same one and
  -- changes nothing.
  pub get_or_create_dm_lem :
      first ≢ second
      → first < 2 ^ 63
      → second < 2 ^ 63
      → (r : DmResult) × (db' : Database) × (get_or_create_dm first second now db ≡ (db', some r))
        × (dm_of first second db' ≡ some r.id)
        × ((later : Time)
            → (get_or_create_dm first second later db'
                ≡ (db', some (record { id = r.id; created = false })))
              × (get_or_create_dm second first later db'
                  ≡ (db', some (record { id = r.id; created = false }))))
  get_or_create_dm_lem d f s = elim (Option-cases (dm_of first second db)) [
    | inr (id, there) ↦ (
      record { id = id; created = false },
      db,
      get_or_create_dm-found first second now db id there,
      there,
      λ later. (
        get_or_create_dm-found first second later db id there,
        found_again first second db later id there,
      ),
    )
    | inl absent ↦
        let db' = with_dm (min first second) (max first second) now db in
        let there = find_dm-with_dm (min first second) (max first second) now db absent in
        (
          record { id = db.next_conversation_id; created = true },
          db',
          created_dm absent (ordered first second d f s),
          there,
          λ later. (
            get_or_create_dm-found first second later db' db.next_conversation_id there,
            found_again first second db' later db.next_conversation_id there,
          ),
        )
  ]

  -- A user whose id is below 2 ^ 63 and one whose id is not never get a dm: the CHECK of the table
  -- compares the ids as signed numbers and refuses the row. Nothing is left of the try but that the
  -- sequence of the ids of conversations is one further.
  pub wide_ids_refused :
      dm_of first second db ≡ none
      → first < 2 ^ 63
      → 2 ^ 63 ≤ second
      → second < 2 ^ 64
      → get_or_create_dm first second now db ≡ (with_id_given db, none)
  unfolding get_or_create_dm create_dm find_winner
  wide_ids_refused h f s b =
      let refused =
        insert_chat_row-refused (min first second) (max first second) now db h (ground arith) in
      rw
        (
          h,
          get_or_create_dm,
          create_dm,
          refused,
          ap (λ r. r.0) refused,
          find_dm-with_id_given (min first second) (max first second) db ∙ h,
          find_winner,
        )
        refl
