-- ===== src/Service/Chat.antt =====
-- The chat service (src/service/ChatService.cpp). The clock readings are arguments; `now_read` is
-- the one that the conversation repository takes. The mutexes of a conversation and of the buckets
-- make each call one step.
pub mod Rate
pub mod Log
pub mod Removing
pub mod Resending
pub mod Submitting
pub mod Sending
pub mod RateLimit
use picasso_backend.Base.{
  ℕ, ◌-◌, Bool, true, false, not, ◌&&◌, ◌||◌, List, [], ◌∷◌, Option, none, some, Bytes, ◌==◌,
  nat_eq, length, drop, is_empty, ltb, leb, is_some, is_none, if◌then◌else◌, min,
}
use picasso_backend.Base.Int.{ℤ, pos, negsuc}
use picasso_backend.Base.Numerals.{is_space}
use picasso_backend.Base.Table.{exists, order_asc}
use picasso_backend.Domain.Ids.{SteamId, ConversationId, MessageId, ConnectionId, Time}
use picasso_backend.Domain.Conversation.{Conversation, is_dm}
use picasso_backend.Domain.Message.{
  Message, max_body_bytes, max_client_message_id_bytes, default_page_size, max_page_size,
  deleted_cursor_overlap_ms,
}
use picasso_backend.Domain.Events.{chat_delivered, message_removed}
use picasso_backend.Storage.Rows.{Database}
use picasso_backend.Storage.ContactRepository.{can_communicate}
use picasso_backend.Storage.ConversationRepository as Conversations
use picasso_backend.Storage.ChatRepository as Messages
use picasso_backend.Storage.ChatRepository.{DeletedMessage}
use picasso_backend.Service.World.{World, publish}
use picasso_backend.Service.Chat.Rate.{Buckets, take_token}

pub data RejectCode : Type 0 where
  invalid too_long not_member not_allowed rate_limited internal : RejectCode

abbrev pub is_blank : Bytes → Bool
is_blank [] = true
is_blank (c ∷ cs) = is_space c && is_blank cs

pub data SubmitResult : Type 0 where
  stored : Message → SubmitResult
  duplicate : Message → SubmitResult
  rejected : RejectCode → SubmitResult

-- The first member that is not the user.
unfoldable pub find_peer : SteamId → List SteamId → Option SteamId
find_peer me [] = none
find_peer me (m ∷ ms) = if not (m == me) then some m else find_peer me ms

-- Whether a user may write: a dm is open only while the two are allies.
unfoldable pub is_writable : SteamId → Conversation → Database → Bool
unfolding find_peer
is_writable me c db =
    if is_dm c.kind
    then elim (find_peer me c.members) [ none ↦ false | some peer ↦ can_communicate me peer db ]
    else true

-- What the sender and the members are told of an append.
unfoldable pub announce :
    List SteamId → ConnectionId → Option Messages.AppendResult → World → World × SubmitResult
announce members origin none w = (w, rejected internal)
announce members origin (some r) w =
    if r.duplicate
    then (w, duplicate r.message)
    else (publish (chat_delivered members r.message (some origin)) w, stored r.message)

unfoldable pub store :
    SteamId → Bytes → Bytes → ConnectionId → Time → Conversation → World → World × SubmitResult
unfolding announce
store sender client_message_id body origin now c w =
    let (r, db') = Messages.append c.id sender client_message_id body now w.db in
    announce c.members origin r (record w { db = db' })

-- The part of `submit` under the lock of the conversation.
unfoldable pub deliver :
    SteamId
    → Bytes
    → Bytes
    → ConnectionId
    → Time
    → Option Conversation
    → World
    → World × SubmitResult
unfolding is_writable store
deliver sender client_message_id body origin now none w = (w, rejected not_member)
deliver sender client_message_id body origin now (some c) w =
    if not (exists (λ m. m == sender) c.members)
    then (w, rejected not_member)
    else if not (is_writable sender c w.db)
    then (w, rejected not_allowed)
    else store sender client_message_id body origin now c w

pub record ChatState : Type 0 where
  pub world : World
  pub buckets : Buckets

abbrev pub is_invalid : Bytes → Bytes → Bool
is_invalid client_message_id body =
    is_empty client_message_id
    || ltb max_client_message_id_bytes (length client_message_id)
    || is_blank body

unfoldable pub submit :
    SteamId
    → ConversationId
    → Bytes
    → Bytes
    → ConnectionId
    → Time
    → Time
    → ChatState
    → ChatState × SubmitResult
unfolding deliver
submit sender conversation_id client_message_id body origin now now_read s =
    let (granted, buckets') = take_token sender now s.buckets in
    let (w', result) =
      deliver sender client_message_id body origin now
        (Conversations.get conversation_id now_read s.world.db) s.world in
    if is_invalid client_message_id body
    then (s, rejected invalid)
    else if ltb max_body_bytes (length body)
    then (s, rejected too_long)
    else if not granted
    then (record s { buckets = buckets' }, rejected rate_limited)
    else (record { world = w'; buckets = buckets' }, result)

pub data RemoveOutcome : Type 0 where
  removed remove_not_found : RemoveOutcome

unfoldable pub remove : SteamId → ConversationId → MessageId → Time → World → World × RemoveOutcome
remove me conversation_id message_id now w =
    let (outcome, db') = Messages.soft_delete conversation_id message_id me now w.db in
    let w' : World = record w { db = db' } in
    elim outcome [
      | Messages.not_found ↦ (w', remove_not_found)
      | Messages.deleted ↦ (
        publish
            (message_removed (Conversations.members conversation_id db') conversation_id message_id)
            w',
        removed,
      )
      | Messages.already_deleted ↦ (w', removed)
    ]
