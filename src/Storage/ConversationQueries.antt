-- ===== src/Storage/ConversationQueries.antt =====
-- The queries on conversations and invites (src/storage/PicassoDatabaseClient.hpp). The ids are
-- stored as 64-bit signed numbers, so the CHECK of the table `chat` compares them as such. Foreign
-- keys are taken to hold.
use mathlib.Core.Option
use picasso_backend.Base.{
  ℕ, ◌+◌, ◌^◌, Bool, ◌&&◌, ◌||◌, List, ◌++◌, [], ◌∷◌, map, Option, none, some, Bytes, ◌==◌, nat_eq,
  pair_eq, is_none, is_some, if◌then◌else◌, ltb, not,
}
use picasso_backend.Base.Int.{ℤ, pos, ltb_ℤ, sub_ℕ}
use picasso_backend.Base.Table.{
  select, delete, update, exists, find_by, insert_or_ignore, upsert, order_desc, distinct,
}
use picasso_backend.Domain.Ids.{SteamId, ConversationId, Time}
use picasso_backend.Domain.Conversation.{ConversationKind}
use picasso_backend.Storage.Rows.{
  Database, ConversationRow, ChatRow, PaletteRow, InviteRow, member_key, invite_key,
}

unfoldable pub is_member : ConversationId → SteamId → Database → Bool
is_member conversation_id id db =
    exists (λ r. r.conversation_id == conversation_id && (r.member_a == id || r.member_b == id))
      db.chat
    || exists (λ r. r.palette_id == conversation_id && r.user_id == id) db.members

unfoldable pub select_members : ConversationId → Database → List SteamId
select_members conversation_id db =
    let rows = select (λ r. r.conversation_id == conversation_id) db.chat in
    distinct (
      map (λ r. r.member_a) rows
      ++ (map (λ r. r.member_b) rows
          ++ map (λ r. r.user_id) (select (λ r. r.palette_id == conversation_id) db.members)))

unfoldable pub select_conversations_of : SteamId → Database → List ConversationId
select_conversations_of id db = distinct (
    map (λ r. r.conversation_id) (select (λ r. r.member_a == id || r.member_b == id) db.chat)
    ++ map (λ r. r.palette_id) (select (λ r. r.user_id == id) db.members))

abbrev pub chat_key : ChatRow → SteamId × SteamId
chat_key r = (r.member_a, r.member_b)

unfoldable pub select_dm_between : SteamId → SteamId → Database → Option ConversationId
select_dm_between member_a member_b db =
    Option.map (λ r. r.conversation_id) (find_by chat_key (member_a, member_b) db.chat)

unfoldable pub insert_conversation_row :
    ConversationKind → Time → Database → ConversationId × Database
insert_conversation_row kind created_at db =
    let id = db.next_conversation_id in
    (
      id,
      record db {
        next_conversation_id = id + 1;
        conversations =
            db.conversations ++ record { id = id; kind = kind; created_at = created_at } ∷ [];
      },
    )

-- The cast of an unsigned id to a signed column.
abbrev pub as_int64 : ℕ → ℤ
as_int64 n = if ltb n (2 ^ 63) then pos n else sub_ℕ n (2 ^ 64)

-- No result where the CHECK or the UNIQUE constraint of the table fails.
unfoldable pub insert_chat_row : ConversationId → SteamId → SteamId → Database → Option Database
insert_chat_row conversation_id member_a member_b db =
    if not (ltb_ℤ (as_int64 member_a) (as_int64 member_b))
    then none
    else if is_some (find_by chat_key (member_a, member_b) db.chat)
    then none
    else some (record db {
      chat =
          db.chat
          ++ record { conversation_id = conversation_id; member_a = member_a; member_b = member_b }
            ∷ [];
    })

unfoldable pub insert_palette_row : ConversationId → Bytes → Database → Database
insert_palette_row conversation_id name db = record db {
  palette = db.palette ++ record { conversation_id = conversation_id; name = name } ∷ [];
}

unfoldable pub insert_member_row : ConversationId → SteamId → Time → Database → Database
insert_member_row palette_id user_id joined_at db = record db {
  members =
      insert_or_ignore member_key
        (record { palette_id = palette_id; user_id = user_id; joined_at = joined_at }) db.members;
}

abbrev pub palette_key : PaletteRow → ConversationId
palette_key r = r.conversation_id

abbrev pub conversation_key : ConversationRow → ConversationId
conversation_key r = r.id

abbrev pub palette_name : ConversationId → Database → Option Bytes
palette_name id db = Option.map (λ p. p.name) (find_by palette_key id db.palette)

-- The row and the name that the LEFT JOIN finds.
unfoldable pub select_conversation :
    ConversationId → Database → Option (ConversationRow × Option Bytes)
select_conversation id db =
    Option.map (λ c. (c, palette_name id db)) (find_by conversation_key id db.conversations)

unfoldable pub select_invite_state : ConversationId → SteamId → Database → Option InviteRow
select_invite_state palette_id invitee_id db =
    find_by invite_key (palette_id, invitee_id) db.palette_invites

unfoldable pub upsert_invite : ConversationId → SteamId → SteamId → Time → Database → Database
upsert_invite palette_id invitee_id inviter_id created_at db = record db {
  palette_invites =
      upsert invite_key
        (record {
          palette_id = palette_id;
          invitee_id = invitee_id;
          inviter_id = inviter_id;
          created_at = created_at;
          declined_at = none;
        })
        (λ r. record r { inviter_id = inviter_id; created_at = created_at; declined_at = none })
        db.palette_invites;
}

-- Neither declined nor expired.
abbrev pub is_open : ℤ → InviteRow → Bool
is_open min_created_at r = is_none r.declined_at && ltb_ℤ min_created_at (pos r.created_at)

unfoldable pub delete_pending_invite : ConversationId → SteamId → ℤ → Database → Bool × Database
delete_pending_invite palette_id invitee_id min_created_at db = (
  exists (λ r. invite_key r == (palette_id, invitee_id) && is_open min_created_at r)
      db.palette_invites,
  record db {
    palette_invites =
        delete (λ r. invite_key r == (palette_id, invitee_id) && is_open min_created_at r)
          db.palette_invites;
  },
)

unfoldable pub mark_invite_declined :
    ConversationId → SteamId → Time → ℤ → Database → Bool × Database
mark_invite_declined palette_id invitee_id declined_at min_created_at db = (
  exists (λ r. invite_key r == (palette_id, invitee_id) && is_open min_created_at r)
      db.palette_invites,
  record db {
    palette_invites =
        update (λ r. invite_key r == (palette_id, invitee_id) && is_open min_created_at r)
          (λ r. record r { declined_at = some declined_at }) db.palette_invites;
  },
)

unfoldable pub select_pending_invitees_of : ConversationId → ℤ → Database → List SteamId
select_pending_invitees_of palette_id min_created_at db =
    map (λ r. r.invitee_id)
      (select (λ r. r.palette_id == palette_id && is_open min_created_at r) db.palette_invites)

-- The JOIN keeps the invites whose palette there is.
unfoldable pub select_pending_invites_for : SteamId → ℤ → Database → List InviteRow
select_pending_invites_for invitee_id min_created_at db =
    order_desc (λ r. r.created_at)
      (select
        (λ r.
          r.invitee_id == invitee_id
          && is_open min_created_at r
          && is_some (palette_name r.palette_id db))
        db.palette_invites)
