-- ===== src/Storage/ConversationRepository.antt =====
-- The conversation repository (src/storage/PgConversationRepository.cpp). Each transaction is one
-- function; no result stands for the exception of a statement that a constraint refuses.
use picasso_backend.Base.{
  Bool, true, false, List, [], map, Option, none, some, Bytes, if◌then◌else◌, min, max,
}
use picasso_backend.Base.Int.{sub_ℕ}
use picasso_backend.Base.Table.{order_asc}
use picasso_backend.Domain.Ids.{SteamId, ConversationId, Time}
use picasso_backend.Domain.Contact.{
  PaletteInvite, younger, palette_invite_ttl_ms, decline_cooldown_ms,
}
use picasso_backend.Domain.Conversation.{Conversation, ConversationKind, dm, palette, is_dm}
use picasso_backend.Storage.Rows.{Database, ConversationRow, InviteRow}
use picasso_backend.Storage.ConversationQueries as Queries
use picasso_backend.Storage.ConversationQueries.{palette_name}

unfoldable pub is_member : ConversationId → SteamId → Database → Bool
is_member conversation_id id db = Queries.is_member conversation_id id db

unfoldable pub members : ConversationId → Database → List SteamId
members conversation_id db = Queries.select_members conversation_id db

unfoldable pub conversations_of : SteamId → Database → List ConversationId
conversations_of id db = Queries.select_conversations_of id db

unfoldable pub find_dm : SteamId → SteamId → Database → Option ConversationId
find_dm member_a member_b db = Queries.select_dm_between member_a member_b db

pub record DmResult : Type 0 where
  pub id : ConversationId
  pub created : Bool

-- What a transaction that is rolled back leaves: the sequence of the ids keeps those it has given.
abbrev pub rolled_back : Database → Database → Database
rolled_back before after = record before { next_conversation_id = after.next_conversation_id }

-- The transaction of `getOrCreateDm`; a refused statement rolls back.
unfoldable pub insert_dm : SteamId → SteamId → Time → Database → Database × Option DmResult
insert_dm low high now db =
    let (id, db') = Queries.insert_conversation_row dm now db in
    elim (Queries.insert_chat_row id low high db') [
      | none ↦ (rolled_back db db', none)
      | some db'' ↦ (db'', some (record { id = id; created = true }))
    ]

-- The second look after a refused transaction.
unfoldable pub find_winner : SteamId → SteamId → Database → Option DmResult
unfolding find_dm
find_winner low high db = elim (find_dm low high db) [
  | none ↦ none
  | some id ↦ some (record { id = id; created = false })
]

unfoldable pub create_dm : SteamId → SteamId → Time → Database → Database × Option DmResult
unfolding insert_dm find_winner
create_dm low high now db =
    let (db', made) = insert_dm low high now db in
    elim made [ some r ↦ (db', some r) | none ↦ (db', find_winner low high db') ]

unfoldable pub get_or_create_dm : SteamId → SteamId → Time → Database → Database × Option DmResult
unfolding find_dm create_dm
get_or_create_dm first second now db =
    let low = min first second in
    let high = max first second in
    elim (find_dm low high db) [
      | some id ↦ (db, some (record { id = id; created = false }))
      | none ↦ create_dm low high now db
    ]

unfoldable pub create_palette : Bytes → SteamId → Time → Database → ConversationId × Database
create_palette name creator now db =
    let (id, db₁) = Queries.insert_conversation_row palette now db in
    let db₂ = Queries.insert_palette_row id name db₁ in
    (id, Queries.insert_member_row id creator now db₂)

-- The pending invitees of a palette, sorted.
unfoldable pub invited_to : ConversationKind → ConversationId → Time → Database → List SteamId
invited_to kind id now db =
    if is_dm kind
    then []
    else order_asc (λ x. x)
        (Queries.select_pending_invitees_of id (sub_ℕ now palette_invite_ttl_ms) db)

unfoldable pub to_conversation :
    ConversationId → Time → Database → ConversationRow × Option Bytes → Conversation
unfolding members invited_to
to_conversation id now db (row, name) = record {
  id = id;
  kind = row.kind;
  name = name;
  members = order_asc (λ x. x) (members id db);
  invited = invited_to row.kind id now db;
  created_at_epoch_ms = row.created_at;
}

-- `now` is the reading of the clock that `get` takes for a palette.
unfoldable pub get : ConversationId → Time → Database → Option Conversation
unfolding to_conversation
get id now db = elim (Queries.select_conversation id db) [
  | none ↦ none
  | some r ↦ some (to_conversation id now db r)
]

pub data InviteOutcome : Type 0 where
  created already_member already_invited cooldown_active : InviteOutcome

unfoldable pub store_invite :
    ConversationId → SteamId → SteamId → Time → Database → Database × InviteOutcome
store_invite id inviter invitee now db = (Queries.upsert_invite id invitee inviter now db, created)

-- What an earlier invite makes of a new one.
unfoldable pub held_back : Time → InviteRow → Option InviteOutcome
held_back now state = elim state.declined_at [
  | some declined ↦ if younger now declined decline_cooldown_ms then some cooldown_active else none
  | none ↦ if younger now state.created_at palette_invite_ttl_ms then some already_invited else none
]

unfoldable pub held : Time → Option InviteRow → Option InviteOutcome
unfolding held_back
held now none = none
held now (some state) = held_back now state

unfoldable pub invite :
    ConversationId → SteamId → SteamId → Time → Database → Database × InviteOutcome
unfolding is_member held store_invite
invite id inviter invitee now db =
    let stored = store_invite id inviter invitee now db in
    if is_member id invitee db
    then (db, already_member)
    else elim (held now (Queries.select_invite_state id invitee db)) [
      | some outcome ↦ (db, outcome)
      | none ↦ stored
    ]

unfoldable pub accept_invite : ConversationId → SteamId → Time → Database → Bool × Database
accept_invite id invitee now db =
    let (deleted, db') =
      Queries.delete_pending_invite id invitee (sub_ℕ now palette_invite_ttl_ms) db in
    if deleted then (true, Queries.insert_member_row id invitee now db') else (false, db)

unfoldable pub decline_invite : ConversationId → SteamId → Time → Database → Bool × Database
decline_invite id invitee now db =
    Queries.mark_invite_declined id invitee now (sub_ℕ now palette_invite_ttl_ms) db

abbrev pub name_of : Option Bytes → Bytes
name_of none = []
name_of (some name) = name

unfoldable pub pending_invites_of : SteamId → Time → Database → List PaletteInvite
pending_invites_of invitee now db =
    map
      (λ r. record {
        conversation_id = r.palette_id;
        name = name_of (palette_name r.palette_id db);
        inviter = r.inviter_id;
        created_at_epoch_ms = r.created_at;
      })
      (Queries.select_pending_invites_for invitee (sub_ℕ now palette_invite_ttl_ms) db)
