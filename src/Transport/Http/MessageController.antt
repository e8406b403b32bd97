-- ===== src/Transport/Http/MessageController.antt =====
-- The endpoints on messages (src/transport/http/ConversationController.hpp): catching up, history
-- and deletion.
use picasso_backend.Base.{
  ℕ, ◌-◌, ◌^◌, List, [], ◌∷◌, Option, none, some, Bytes, codes, is_empty, ltb, if◌then◌else◌,
}
use picasso_backend.Base.Int.{ℤ, pos, negsuc}
use picasso_backend.Base.Numerals.{to_string}
use picasso_backend.Domain.Ids.{SteamId, ConversationId, MessageId, Time}
use picasso_backend.Domain.Message.{Message}
use picasso_backend.Dto.Envelope.{MessageDto, MessageDeletedDto}
use picasso_backend.Dto.Mappers.{conversation_to_dto, message_to_dto}
use picasso_backend.Dto.Rest.{SyncRequestDto, SyncCursorDto, SyncConversationDto, SyncResponseDto}
use picasso_backend.Storage.ChatRepository.{DeletedMessage}
use picasso_backend.Service.World.{World}
use picasso_backend.Service.Chat as Chat
use picasso_backend.Service.CatchUp as CatchUp
use picasso_backend.Service.CatchUp.{SyncCursor, SyncedConversation, SyncResult, HistoryPage}
use picasso_backend.Transport.Http.{parse_unsigned, parse_conversation_id}
use picasso_backend.Transport.Http.Reply.{
  Reply, response, http_error, no_body, page_body, sync_body, json_error, require_identity,
}
use picasso_backend.Transport.Http.ConversationController.{text_or_empty, no_such_conversation}

-- A number that fits a signed 64-bit one.
abbrev pub small : Option ℕ → Option MessageId
small none = none
small (some n) = if ltb (2 ^ 63 - 1) n then none else some n

abbrev pub cursor_from : Option ConversationId → Option MessageId → Option SyncCursor
cursor_from (some id) (some after) = some (record { conversation_id = id; after = after })
cursor_from _ _ = none

unfoldable pub parse_cursor : Option SyncCursorDto → Option SyncCursor
parse_cursor none = none
parse_cursor (some c) =
    cursor_from (parse_conversation_id c.conversation_id)
      (small (parse_unsigned (text_or_empty c.after)))

unfoldable pub parse_cursors : List (Option SyncCursorDto) → Option (List SyncCursor)
unfolding parse_cursor
parse_cursors [] = some []
parse_cursors (raw ∷ rest) = elim (parse_cursor raw) [
  | none ↦ none
  | some cursor ↦ elim (parse_cursors rest) [ none ↦ none | some cs ↦ some (cursor ∷ cs) ]
]

abbrev pub cursors_of : Option (List (Option SyncCursorDto)) → Option (List SyncCursor)
cursors_of none = some []
cursors_of (some raws) = parse_cursors raws

-- `static_cast<std::int64_t>` of an unsigned 64-bit number.
abbrev pub to_int64 : ℕ → ℤ
to_int64 n = if ltb n (2 ^ 63) then pos n else negsuc (2 ^ 64 - 1 - n)

-- The moment, none where it is not given, or an error.
pub data Since : Type 0 where
  not_given : Since
  invalid_since : Since
  since : ℤ → Since

abbrev pub since_number : Option ℕ → Since
since_number none = invalid_since
since_number (some n) = since (to_int64 n)

unfoldable pub parse_since : Option Bytes → Since
parse_since none = not_given
parse_since (some text) = if is_empty text then not_given else since_number (parse_unsigned text)

unfoldable pub message_dtos : List Message → List MessageDto
message_dtos [] = []
message_dtos (m ∷ ms) = message_to_dto m ∷ message_dtos ms

unfoldable pub synced_dtos : List SyncedConversation → List SyncConversationDto
unfolding message_dtos
synced_dtos [] = []
synced_dtos (entry ∷ entries) =
    record {
      conversation = conversation_to_dto entry.conversation entry.writable;
      mode = if entry.reset then codes "reset" else codes "delta";
      has_more_before = entry.has_more_before;
      messages = message_dtos entry.messages;
    }
    ∷ synced_dtos entries

unfoldable pub deleted_dtos : List DeletedMessage → List MessageDeletedDto
deleted_dtos [] = []
deleted_dtos (d ∷ ds) =
    record {
      conversation_id = some (to_string d.conversation_id);
      message_id = some (to_string d.message_id);
    }
    ∷ deleted_dtos ds

unfoldable pub sync_response : SyncResult → SyncResponseDto
unfolding synced_dtos deleted_dtos
sync_response r = record {
  server_time = to_string r.server_time;
  deleted_cursor = to_string r.deleted_cursor;
  conversations = synced_dtos r.conversations;
  deleted = deleted_dtos r.deleted;
}

abbrev pub limit_or_zero : Option ℤ → ℤ
limit_or_zero none = pos 0
limit_or_zero (some limit) = limit

unfoldable pub sync_with :
    SteamId → Option (List SyncCursor) → Since → ℤ → Time → Time → World → World × Reply
unfolding sync_response
sync_with me none deleted_since limit now now_read w = (w, http_error 422 (codes "invalid cursor"))
sync_with me (some cursors) invalid_since limit now now_read w =
    (w, http_error 422 (codes "invalid deletedSince"))
sync_with me (some cursors) not_given limit now now_read w = (
  w,
  response 200 (sync_body (sync_response (CatchUp.sync me cursors none limit now now_read w.db))),
)
sync_with me (some cursors) (since moment) limit now now_read w = (
  w,
  response 200
      (sync_body (sync_response (CatchUp.sync me cursors (some moment) limit now now_read w.db))),
)

unfoldable pub sync : Option SteamId → SyncRequestDto → Time → Time → World → World × Reply
unfolding sync_with parse_cursors parse_since require_identity
sync caller body now now_read w =
    require_identity caller
      (λ me.
        sync_with me (cursors_of body.cursors) (parse_since body.deleted_since)
          (limit_or_zero body.limit) now now_read w)
      w

unfoldable pub page_reply : HistoryPage → Reply
unfolding message_dtos no_such_conversation
page_reply page =
    if page.member
    then response 200 (
        page_body (record {
          messages = message_dtos page.messages;
          has_more_before = some page.has_more_before;
        }))
    else no_such_conversation

unfoldable pub messages_of :
    SteamId → Option ConversationId → Option MessageId → ℤ → World → World × Reply
unfolding page_reply no_such_conversation
messages_of me none before limit w = (w, no_such_conversation)
messages_of me (some id) none limit w = (w, http_error 422 (codes "before is required"))
messages_of me (some id) (some before) limit w =
    (w, page_reply (CatchUp.history me id before limit w.db))

unfoldable pub messages :
    Option SteamId → Option Bytes → Option Bytes → Option ℤ → World → World × Reply
unfolding messages_of require_identity
messages caller conversation_id before limit w =
    require_identity caller
      (λ me.
        messages_of me (parse_conversation_id conversation_id)
          (small (parse_unsigned (text_or_empty before))) (limit_or_zero limit) w)
      w

unfoldable pub remove_reply : Chat.RemoveOutcome → Reply
unfolding json_error
remove_reply Chat.removed = response 204 no_body
remove_reply Chat.remove_not_found = http_error 404 (json_error (codes "no such message"))

unfoldable pub remove_message_of :
    SteamId → Option ConversationId → Option MessageId → Time → World → World × Reply
unfolding remove_reply json_error
remove_message_of me (some id) (some message) now w =
    let (w', outcome) = Chat.remove me id message now w in (w', remove_reply outcome)
remove_message_of me _ _ now w = (w, http_error 404 (json_error (codes "no such message")))

unfoldable pub remove_message :
    Option SteamId → Option Bytes → Option Bytes → Time → World → World × Reply
unfolding remove_message_of require_identity
remove_message caller conversation_id message_id now w =
    require_identity caller
      (λ me.
        remove_message_of me (parse_conversation_id conversation_id)
          (small (parse_unsigned (text_or_empty message_id))) now w)
      w
