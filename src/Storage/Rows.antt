-- ===== src/Storage/Rows.antt =====
-- The tables (src/storage/migrations/0001_init.sql, src/storage/Rows.hpp). A column that may be
-- null is an `Option`; the text columns with a CHECK on their values hold the value's data type.
use picasso_backend.Base.{List, Option, Bytes, Bytes}
use picasso_backend.Domain.Ids.{SteamId, ConversationId, MessageId, Time}
use picasso_backend.Domain.Contact.{ContactLevel}
use picasso_backend.Domain.Conversation.{ConversationKind}

pub record ContactRow : Type 0 where
  pub owner_id : SteamId
  pub other_id : SteamId
  pub level : ContactLevel
  pub since : Time

pub record RequestRow : Type 0 where
  pub from_id : SteamId
  pub to_id : SteamId
  pub created_at : Time
  pub declined_at : Option Time

pub record InviteRow : Type 0 where
  pub palette_id : ConversationId
  pub invitee_id : SteamId
  pub inviter_id : SteamId
  pub created_at : Time
  pub declined_at : Option Time

pub record SessionRow : Type 0 where
  pub token_hash : Bytes
  pub steam_id : SteamId
  pub created_at : Time
  pub expires_at : Time
  pub revoked_at : Option Time

pub record ConversationRow : Type 0 where
  pub id : ConversationId
  pub kind : ConversationKind
  pub created_at : Time

pub record ChatRow : Type 0 where
  pub conversation_id : ConversationId
  pub member_a : SteamId
  pub member_b : SteamId

pub record PaletteRow : Type 0 where
  pub conversation_id : ConversationId
  pub name : Bytes

pub record MemberRow : Type 0 where
  pub palette_id : ConversationId
  pub user_id : SteamId
  pub joined_at : Time

pub record MessageRow : Type 0 where
  pub id : MessageId
  pub conversation_id : ConversationId
  pub sender_steam_id : SteamId
  pub client_message_id : Bytes
  pub text_message : Bytes
  pub sent_at : Time
  pub deleted_at : Option Time

-- The two counters are the sequences behind the identity columns.
pub record Database : Type 0 where
  pub users : List SteamId
  pub sessions : List SessionRow
  pub conversations : List ConversationRow
  pub chat : List ChatRow
  pub palette : List PaletteRow
  pub members : List MemberRow
  pub message_data : List MessageRow
  pub contacts : List ContactRow
  pub contact_requests : List RequestRow
  pub palette_invites : List InviteRow
  pub next_conversation_id : ConversationId
  pub next_message_id : MessageId

abbrev pub contact_key : ContactRow → SteamId × SteamId
contact_key r = (r.owner_id, r.other_id)

abbrev pub request_key : RequestRow → SteamId × SteamId
request_key r = (r.from_id, r.to_id)

abbrev pub invite_key : InviteRow → ConversationId × SteamId
invite_key r = (r.palette_id, r.invitee_id)

abbrev pub member_key : MemberRow → ConversationId × SteamId
member_key r = (r.palette_id, r.user_id)
