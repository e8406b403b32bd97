-- ===== src/Transport/Http/ConversationController.antt =====
-- The endpoints on conversations and messages (src/transport/http/ConversationController.hpp). The
-- caller is the answer of `identity`, and the clock readings of the services are arguments.
use picasso_backend.Base.{true, List, [], ◌∷◌, Option, none, some, Bytes, codes}
use picasso_backend.Domain.Ids.{SteamId, ConversationId, Time}
use picasso_backend.Domain.Conversation.{
  Conversation, ConversationKind, dm, palette, parse_conversation_kind,
}
use picasso_backend.Dto.Envelope.{ConversationDto}
use picasso_backend.Dto.Mappers.{conversation_to_dto}
use picasso_backend.Dto.Rest.{CreateConversationDto, SteamIdBodyDto}
use picasso_backend.Service.World.{World}
use picasso_backend.Service.Conversations as Conversations
use picasso_backend.Transport.Http.{parse_steam_id, parse_conversation_id}
use picasso_backend.Transport.Http.Reply.{
  Reply, response, http_error, exception, no_body, conversation_body, json_error, require_identity,
}

abbrev pub conversation_dto : Option Conversation → Option ConversationDto
conversation_dto none = none
conversation_dto (some c) = some (conversation_to_dto c true)

unfoldable pub create_reply : Conversations.CreateResult → Reply
create_reply r = elim r.outcome [
  | Conversations.created ↦ response 201 (conversation_body (conversation_dto r.conversation))
  | Conversations.existing ↦ response 200 (conversation_body (conversation_dto r.conversation))
  | Conversations.CreateOutcome.not_allowed ↦ http_error 403 (codes "not_allowed")
  | Conversations.CreateOutcome.self ↦
      http_error 422 (codes "cannot start a conversation with yourself")
  | Conversations.invalid_name ↦ http_error 422 (codes "palette name must be 1-64 bytes")
  | Conversations.too_many_invitees ↦ http_error 422 (codes "too many invitees")
]

-- A query that fails throws.
abbrev pub created_or_thrown : World × Option Conversations.CreateResult → World × Reply
created_or_thrown (w, none) = (w, exception (codes "PgConversationRepository::getOrCreateDm"))
created_or_thrown (w, some r) = (w, create_reply r)

unfoldable pub create_dm_with : SteamId → Option SteamId → Time → Time → World → World × Reply
unfolding create_reply
create_dm_with me none now now_read w =
    (w, http_error 422 (codes "peerSteamId is required for a dm"))
create_dm_with me (some peer) now now_read w =
    created_or_thrown (Conversations.create_dm me peer now now_read w)

-- All of the ids, unless one is not a number.
unfoldable pub parse_invitees : List (Option Bytes) → Option (List SteamId)
parse_invitees [] = some []
parse_invitees (raw ∷ rest) = elim (parse_steam_id raw) [
  | none ↦ none
  | some invitee ↦ elim (parse_invitees rest) [ none ↦ none | some ids ↦ some (invitee ∷ ids) ]
]

abbrev pub invitees_of : Option (List (Option Bytes)) → Option (List SteamId)
invitees_of none = some []
invitees_of (some raws) = parse_invitees raws

abbrev pub text_or_empty : Option Bytes → Bytes
text_or_empty none = []
text_or_empty (some text) = text

unfoldable pub create_palette_with :
    SteamId → Bytes → Option (List SteamId) → Time → Time → World → World × Reply
unfolding create_reply
create_palette_with me name none now now_read w =
    (w, http_error 422 (codes "invalid steamId in inviteSteamIds"))
create_palette_with me name (some invitees) now now_read w =
    let (w', r) = Conversations.create_palette me name invitees now now_read w in
    (w', create_reply r)

abbrev pub kind_named : Option Bytes → Option ConversationKind
kind_named none = none
kind_named (some name) = parse_conversation_kind name

unfoldable pub create_of_kind :
    SteamId → Option ConversationKind → CreateConversationDto → Time → Time → World → World × Reply
unfolding create_dm_with create_palette_with parse_invitees
create_of_kind me none body now now_read w =
    (w, http_error 422 (codes "kind must be dm or palette"))
create_of_kind me (some dm) body now now_read w =
    create_dm_with me (parse_steam_id body.peer_steam_id) now now_read w
create_of_kind me (some palette) body now now_read w =
    create_palette_with me (text_or_empty body.name) (invitees_of body.invite_steam_ids) now
      now_read w

unfoldable pub create_conversation :
    Option SteamId → CreateConversationDto → Time → Time → World → World × Reply
unfolding create_of_kind require_identity
create_conversation caller body now now_read w =
    require_identity caller (λ me. create_of_kind me (kind_named body.kind) body now now_read w) w

unfoldable pub no_such_conversation : Reply
unfolding json_error
no_such_conversation = http_error 404 (json_error (codes "no such conversation"))

unfoldable pub invite_reply : Conversations.InviteResult → Reply
unfolding no_such_conversation
invite_reply r = elim r.outcome [
  | Conversations.invited ↦ response 201 (conversation_body (conversation_dto r.conversation))
  | Conversations.unchanged ↦ response 200 (conversation_body (conversation_dto r.conversation))
  | Conversations.not_a_member ↦ no_such_conversation
  | Conversations.InviteOutcome.not_allowed ↦ http_error 403 (codes "not_allowed")
  | Conversations.InviteOutcome.self ↦ http_error 422 (codes "cannot invite yourself")
]

unfoldable pub invite_to :
    SteamId
    → Option ConversationId
    → Option SteamId
    → Time
    → Time
    → Time
    → Time
    → World
    → World × Reply
unfolding invite_reply no_such_conversation
invite_to me none invitee now_read now now_reread now_told w = (w, no_such_conversation)
invite_to me (some id) none now_read now now_reread now_told w =
    (w, http_error 422 (codes "invalid steamId"))
invite_to me (some id) (some invitee) now_read now now_reread now_told w =
    let (w', r) = Conversations.invite me id invitee now_read now now_reread now_told w in
    (w', invite_reply r)

unfoldable pub invite :
    Option SteamId
    → Option Bytes
    → SteamIdBodyDto
    → Time
    → Time
    → Time
    → Time
    → World
    → World × Reply
unfolding invite_to require_identity
invite caller conversation_id body now_read now now_reread now_told w =
    require_identity caller
      (λ me.
        invite_to me (parse_conversation_id conversation_id) (parse_steam_id body.steam_id) now_read
          now now_reread now_told w)
      w

abbrev pub joined_reply : Option Conversation → Reply
joined_reply none = http_error 404 (json_error (codes "no such invitation"))
joined_reply (some c) = response 200 (conversation_body (conversation_dto (some c)))

unfoldable pub accept_invite_to :
    SteamId → Option ConversationId → Time → Time → World → World × Reply
unfolding json_error
accept_invite_to me none now now_read w =
    (w, http_error 404 (json_error (codes "no such invitation")))
accept_invite_to me (some id) now now_read w =
    let (w', joined) = Conversations.accept_invite me id now now_read w in (w', joined_reply joined)

unfoldable pub accept_invite : Option SteamId → Option Bytes → Time → Time → World → World × Reply
unfolding accept_invite_to require_identity
accept_invite caller conversation_id now now_read w =
    require_identity caller
      (λ me. accept_invite_to me (parse_conversation_id conversation_id) now now_read w) w

unfoldable pub decline_invite_to : SteamId → Option ConversationId → Time → World → World
decline_invite_to me none now w = w
decline_invite_to me (some id) now w = Conversations.decline_invite me id now w

unfoldable pub decline_invite : Option SteamId → Option Bytes → Time → World → World × Reply
unfolding decline_invite_to require_identity
decline_invite caller conversation_id now w =
    require_identity caller
      (λ me.
        (decline_invite_to me (parse_conversation_id conversation_id) now w, response 204 no_body))
      w
