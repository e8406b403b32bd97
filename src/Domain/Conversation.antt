-- ===== src/Domain/Conversation.antt =====
-- Conversations and their kinds (src/domain/Conversation.hpp).
use picasso_backend.Base.{
  Option, none, some, List, ◌==◌, Bytes, bytes_eq, codes, if◌then◌else◌, Bool, true, false,
}
use picasso_backend.Domain.Ids.{SteamId, ConversationId, Time}

pub data ConversationKind : Type 0 where
  dm palette : ConversationKind

abbrev pub is_dm : ConversationKind → Bool
is_dm dm = true
is_dm palette = false

unfoldable pub to_wire_string : ConversationKind → Bytes
to_wire_string kind = if is_dm kind then codes "dm" else codes "palette"

unfoldable pub parse_conversation_kind : Bytes → Option ConversationKind
parse_conversation_kind wire =
    if wire == codes "dm" then some dm else if wire == codes "palette" then some palette else none

pub record Conversation : Type 0 where
  pub id : ConversationId
  pub kind : ConversationKind
  pub name : Option Bytes
  pub members : List SteamId
  pub invited : List SteamId
  pub created_at_epoch_ms : Time
