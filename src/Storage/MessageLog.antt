-- ===== src/Storage/MessageLog.antt =====
-- What the table of messages keeps to, and what its readers see (src/storage/PgChatRepository.cpp).
use picasso_backend.Base.{
  ℕ, ◌+◌, ◌≡◌, refl, ◌∙◌, ap, Bool, List, [], ◌∷◌, map, reverse, Bytes, take, ltb, triple_eq, ◌==◌,
  All, arith, inl, inr, Bool-cases,
}
use picasso_backend.Base.Table.{
  select, update, exists, IsKeyed, exists-key, snoc-IsKeyed, update-IsKeyed, order_desc,
}
use picasso_backend.Base.Ordered.{
  IsAscending, select-IsAscending, update-IsAscending, snoc-IsAscending, IsBelow,
  order_desc-reverse, last_of, append-All, map-reverse-take,
}
use picasso_backend.Domain.Ids.{SteamId, ConversationId, MessageId, Time}
use picasso_backend.Domain.Message.{Message}
use picasso_backend.Storage.Rows.{Database, MessageRow}
use picasso_backend.Storage.ChatQueries.{
  message_key, message_row, is_shown, insert_message, select_newest_messages, select_older_messages,
  mark_message_deleted,
}
use picasso_backend.Storage.ChatRepository.{to_message, ascending, newest, older_than}

abbrev pub id_of : MessageRow → ℕ
id_of r = r.id

-- The ids grow from row to row and are below the next one; the UNIQUE constraint holds.
pub record IsLog (db : Database) : Type 0 where
  pub in_order : IsAscending id_of 0 db.message_data
  pub all_below : All (IsBelow id_of db.next_message_id) db.message_data
  pub keyed : IsKeyed message_key db.message_data

weaken-All :
    (n : ℕ) (rs : List MessageRow) → All (IsBelow id_of n) rs → All (IsBelow id_of (n + 1)) rs
weaken-All n [] h = tt
weaken-All n (r ∷ rs) h = (omega (arith, h.0), weaken-All n rs h.1)

pub insert_message-IsLog :
    (c : ConversationId) (sender : SteamId) (key text : Bytes) (now : Time) (db : Database)
    → IsLog db
    → IsLog (insert_message c sender key text now db).1
unfolding insert_message
insert_message-IsLog c sender key text now db l =
    let row = message_row c sender key text now db in
    elim (Bool-cases (exists (λ r. message_key r == (c, sender, key)) db.message_data)) [
      | inl there ↦ rw there (record {
        in_order = l.in_order;
        all_below = weaken-All db.next_message_id db.message_data l.all_below;
        keyed = l.keyed;
      })
      | inr fresh ↦ rw fresh (record {
        in_order =
            snoc-IsAscending id_of row 0 db.message_data (omega arith) l.all_below l.in_order;
        all_below =
            append-All id_of (IsBelow id_of (db.next_message_id + 1)) db.message_data (row ∷ [])
              (weaken-All db.next_message_id db.message_data l.all_below) (omega arith, tt);
        keyed =
            snoc-IsKeyed message_key row db.message_data
              (ground (arith, fresh, exists-key message_key (c, sender, key) db.message_data))
              l.keyed;
      })
    ]

update-All :
    (p : MessageRow → Bool) (g : MessageRow → MessageRow) (n : ℕ) (rs : List MessageRow)
    → ((r : MessageRow) → id_of (g r) ≡ id_of r)
    → All (IsBelow id_of n) rs
    → All (IsBelow id_of n) (update p g rs)
unfolding update
update-All p g n [] same h = tt
update-All p g n (r ∷ rs) same h = ground (arith, h.0, same r, update-All p g n rs same h.1)

-- The messages shown of a conversation in a range of ids, oldest first.
abbrev pub shown : ConversationId → (MessageId → Bool) → Database → List Message
shown c in_range db = map to_message (select (is_shown c in_range) db.message_data)

module _ (c : ConversationId) (n : ℕ) (db : Database) (l : IsLog db) where
  in_range_order :
      (p : MessageRow → Bool)
      → order_desc id_of (select p db.message_data) ≡ reverse (select p db.message_data)
  in_range_order p =
      order_desc-reverse id_of 0 (select p db.message_data)
        (select-IsAscending id_of p 0 db.message_data l.in_order)

  pub newest_lem :
      (after : MessageId) → newest c after n db ≡ last_of n (shown c (λ id. ltb after id) db)
  unfolding newest select_newest_messages ascending
  newest_lem after =
      ap (λ rs. reverse (map to_message (take n rs)))
        (in_range_order (is_shown c (λ id. ltb after id)))
      ∙ map-reverse-take to_message n (select (is_shown c (λ id. ltb after id)) db.message_data)

  pub older_than_lem :
      (before : MessageId) → older_than c before n db ≡ last_of n (shown c (λ id. ltb id before) db)
  unfolding older_than select_older_messages ascending
  older_than_lem before =
      ap (λ rs. reverse (map to_message (take n rs)))
        (in_range_order (is_shown c (λ id. ltb id before)))
      ∙ map-reverse-take to_message n (select (is_shown c (λ id. ltb id before)) db.message_data)

-- A deletion changes neither ids nor keys.
pub mark_message_deleted-IsLog :
    (id : MessageId) (c : ConversationId) (sender : SteamId) (now : Time) (db : Database)
    → IsLog db
    → IsLog (mark_message_deleted id c sender now db).1
unfolding mark_message_deleted
mark_message_deleted-IsLog id c sender now db l = record {
  in_order = update-IsAscending id_of _ _ 0 db.message_data (λ r. refl) l.in_order;
  all_below = update-All _ _ db.next_message_id db.message_data (λ r. refl) l.all_below;
  keyed = update-IsKeyed message_key _ _ db.message_data (λ r. refl) l.keyed;
}
