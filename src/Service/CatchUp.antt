-- ===== src/Service/CatchUp.antt =====
-- Catching up and scrolling back (src/service/ChatService.cpp, `sync` and `history`).
pub mod Pages
use picasso_backend.Base.{
  ℕ, ◌+◌, ◌-◌, Bool, true, false, not, ◌&&◌, ◌||◌, List, [], ◌∷◌, Option, none, some, ◌==◌, nat_eq,
  length, drop, ltb, is_none, if◌then◌else◌, min,
}
use picasso_backend.Base.Int.{ℤ, pos, negsuc}
use picasso_backend.Base.Table.{order_asc}
use picasso_backend.Domain.Ids.{SteamId, ConversationId, MessageId, Time}
use picasso_backend.Domain.Conversation.{Conversation}
use picasso_backend.Domain.Message.{
  Message, default_page_size, max_page_size, deleted_cursor_overlap_ms,
}
use picasso_backend.Storage.Rows.{Database}
use picasso_backend.Storage.ConversationRepository as Conversations
use picasso_backend.Storage.ChatRepository as Messages
use picasso_backend.Storage.ChatRepository.{DeletedMessage}
use picasso_backend.Service.Chat.{is_writable}

abbrev pub clamp_limit : ℤ → ℕ
clamp_limit (pos n) = if n == 0 then default_page_size else min n max_page_size
clamp_limit (negsuc n) = default_page_size

pub record SyncCursor : Type 0 where
  pub conversation_id : ConversationId
  pub after : MessageId

pub record SyncedConversation : Type 0 where
  pub conversation : Conversation
  pub writable : Bool
  pub reset : Bool
  pub has_more_before : Bool
  pub messages : List Message

pub record SyncResult : Type 0 where
  pub server_time : Time
  pub deleted_cursor : Time
  pub conversations : List SyncedConversation
  pub deleted : List DeletedMessage

unfoldable pub find_cursor : ConversationId → List SyncCursor → Option MessageId
find_cursor id [] = none
find_cursor id (c ∷ cs) = if c.conversation_id == id then some c.after else find_cursor id cs

-- `rows.erase(rows.begin(), rows.end() - limit)` for more than `limit` rows.
abbrev pub keep_newest : ℕ → List Message → List Message
keep_newest limit rows = if ltb limit (length rows) then drop (length rows - limit) rows else rows

abbrev pub or_zero : Option MessageId → MessageId
or_zero none = 0
or_zero (some id) = id

unfoldable pub sync_one :
    SteamId → Option MessageId → ℕ → Conversation → Database → SyncedConversation
unfolding is_writable
sync_one me cursor limit c db =
    let rows = Messages.newest c.id (or_zero cursor) (limit + 1) db in
    let more_than_a_page = ltb limit (length rows) in
    let reset = is_none cursor || more_than_a_page in
    record {
      conversation = c;
      writable = is_writable me c db;
      reset = reset;
      has_more_before = reset && more_than_a_page;
      messages = keep_newest limit rows;
    }

unfoldable pub sync_found :
    SteamId
    → List SyncCursor
    → ℕ
    → Option Conversation
    → Database
    → List SyncedConversation
    → List SyncedConversation
unfolding sync_one find_cursor
sync_found me cursors limit none db rest = rest
sync_found me cursors limit (some c) db rest =
    sync_one me (find_cursor c.id cursors) limit c db ∷ rest

unfoldable pub sync_each :
    SteamId → List SyncCursor → ℕ → Time → List ConversationId → Database → List SyncedConversation
unfolding sync_found
sync_each me cursors limit now_read [] db = []
sync_each me cursors limit now_read (id ∷ ids) db =
    sync_found me cursors limit (Conversations.get id now_read db) db
      (sync_each me cursors limit now_read ids db)

abbrev pub deleted_for : SteamId → Option ℤ → Database → List DeletedMessage
deleted_for me none db = []
deleted_for me (some since) db = Messages.deleted_since me since db

unfoldable pub sync : SteamId → List SyncCursor → Option ℤ → ℤ → Time → Time → Database → SyncResult
unfolding sync_each
sync me cursors deleted_since limit_requested now now_read db = record {
  server_time = now;
  deleted_cursor = now - deleted_cursor_overlap_ms;
  conversations =
      sync_each me cursors (clamp_limit limit_requested) now_read
        (order_asc (λ x. x) (Conversations.conversations_of me db)) db;
  deleted = deleted_for me deleted_since db;
}

pub record HistoryPage : Type 0 where
  pub member : Bool
  pub messages : List Message
  pub has_more_before : Bool

unfoldable pub history : SteamId → ConversationId → MessageId → ℤ → Database → HistoryPage
history me conversation_id before limit_requested db =
    let limit = clamp_limit limit_requested in
    let rows = Messages.older_than conversation_id before (limit + 1) db in
    if not (Conversations.is_member conversation_id me db)
    then record { member = false; messages = []; has_more_before = false }
    else record {
      member = true;
      messages = keep_newest limit rows;
      has_more_before = ltb limit (length rows);
    }
