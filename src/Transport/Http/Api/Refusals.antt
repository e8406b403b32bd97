-- ===== src/Transport/Http/Api/Refusals.antt =====
-- What a request that is refused leaves behind (src/transport/http).
use picasso_backend.Base.{
  ◌≡◌, ◌⊎◌, refl, ap, codes, true, false, Option, none, some, arith, Bytes, List, [], is_some,
  is_none, ◌&&◌, inl, inr, Bool-cases,
}
use picasso_backend.Domain.Ids.{SteamId, ConversationId, MessageId, Time}
use picasso_backend.Domain.Contact.{ContactLevel}
use picasso_backend.Domain.Conversation.{ConversationKind, dm, palette}
use picasso_backend.Dto.Rest.{CreateConversationDto}
use picasso_backend.Service.Conversations as Conversations
use picasso_backend.Base.Table.{exists, update-absent}
use picasso_backend.Base.Int.{ℤ}
use picasso_backend.Storage.Rows.{Database}
use picasso_backend.Storage.ChatQueries.{mark_message_deleted, of_sender}
use picasso_backend.Storage.ChatRepository.{soft_delete, not_found}
use picasso_backend.Storage.ConversationRepository as Repository
use picasso_backend.Storage.ConversationRepository.{DmResult}
use picasso_backend.Storage.DirectMessages.{with_id_given, get_or_create_dm-thrown}
use picasso_backend.Service.CatchUp.{SyncCursor}
use picasso_backend.Service.Chat as Chat
use picasso_backend.Transport.Http.{parse_steam_id, parse_conversation_id, parse_unsigned}
use picasso_backend.Transport.Http.ContactController.{level_named}
use picasso_backend.Transport.Http.ConversationController.{kind_named, text_or_empty}
use picasso_backend.Transport.Http.MessageController.{cursors_of, parse_since, limit_or_zero, small}
use picasso_backend.Service.World.{World}
use picasso_backend.Transport.Http.Api.{
  Request, Clock, handle, get_contacts, post_request, accept_request, decline_request, put_level,
  delete_contact, post_conversation, post_invite, accept_invite, decline_invite, post_sync,
  get_messages, delete_message,
}
use picasso_backend.Transport.Http.Reply.{
  Reply, is_error, require_identity, response, no_body, exception,
}
use picasso_backend.Transport.Http.ContactController as ContactController
use picasso_backend.Transport.Http.ConversationController as ConversationController
use picasso_backend.Transport.Http.MessageController as MessageController
use picasso_backend.Service.Contacts as Contacts

-- What a refused dm leaves and what is answered then.
abbrev pub id_taken : World → World
id_taken w = record w { db = with_id_given w.db }

abbrev pub dm_refused : Reply
dm_refused = exception (codes "PgConversationRepository::getOrCreateDm")

-- An error changes nothing.
abbrev Exact : World → World × Reply → Type 0
Exact w r = is_error r.1 ≡ true → r.0 ≡ w

-- A refused dm may take an id.
abbrev Atomic : World → World × Reply → Type 0
Atomic w r = is_error r.1 ≡ true → (r.0 ≡ w) ⊎ ((r.0 ≡ id_taken w) × (r.1 ≡ dm_refused))

exact : (w : World) (r : World × Reply) → Exact w r → Atomic w r
exact w r h e = inl (h e)

require_identity-Atomic :
    (caller : Option SteamId) (endpoint : SteamId → World × Reply) (w : World)
    → ((me : SteamId) → Atomic w (endpoint me))
    → Atomic w (require_identity caller endpoint w)
unfolding require_identity
require_identity-Atomic none endpoint w h e = inl refl
require_identity-Atomic (some me) endpoint w h e = h me e

require_identity-Exact :
    (caller : Option SteamId) (endpoint : SteamId → World × Reply) (w : World)
    → ((me : SteamId) → Exact w (endpoint me))
    → Atomic w (require_identity caller endpoint w)
require_identity-Exact caller endpoint w h =
    require_identity-Atomic caller endpoint w (λ me. exact w (endpoint me) (h me))

send_request_to-Exact :
    (me : SteamId) (target : Option SteamId) (t : Clock) (w : World)
    → Exact w (ContactController.send_request_to me target t.first t.second w)
unfolding ContactController.send_request_to Contacts.request Contacts.admit Contacts.request_mutual
    Contacts.request_own
send_request_to-Exact me none t w e = refl
send_request_to-Exact me (some target) t w e = ground (arith, e)

accept_request_of-Exact :
    (me : SteamId) (from : Option SteamId) (t : Clock) (w : World)
    → Exact w (ContactController.accept_request_of me from t.first w)
unfolding ContactController.accept_request_of Contacts.accept
accept_request_of-Exact me none t w e = refl
accept_request_of-Exact me (some from) t w e = ground (arith, e)

set_level_to-Exact :
    (me : SteamId) (other : Option SteamId) (level : Option ContactLevel) (t : Clock) (w : World)
    → Exact w (ContactController.set_level_to me other level t.first w)
unfolding ContactController.set_level_to Contacts.set_level
set_level_to-Exact me none level t w e = refl
set_level_to-Exact me (some other) none t w e = refl
set_level_to-Exact me (some other) (some level) t w e = ground (arith, e)

created_or_thrown-Atomic :
    (w : World) (r : World × Option Conversations.CreateResult)
    → (r.1 ≡ none → r.0 ≡ id_taken w)
    → ((c : Conversations.CreateResult)
        → r.1 ≡ some c
        → Exact w (r.0, ConversationController.create_reply c))
    → Atomic w (ConversationController.created_or_thrown r)
created_or_thrown-Atomic w (w', none) thrown made e = inr (thrown refl, refl)
created_or_thrown-Atomic w (w', some c) thrown made e = inl (made c refl e)

finish_dm-none :
    (me peer : SteamId) (now_read : Time) (w : World) (r : Database × Option DmResult)
    → (r.1 ≡ none → r.0 ≡ with_id_given w.db)
    → (Conversations.finish_dm me peer now_read w r).1 ≡ none
    → (Conversations.finish_dm me peer now_read w r).0 ≡ id_taken w
unfolding Conversations.finish_dm
finish_dm-none me peer now_read w (db, none) h e = ap (λ db. record w { db = db }) (h refl)
finish_dm-none me peer now_read w (db, some r) h e = cc

finish_dm-Exact :
    (me peer : SteamId) (now_read : Time) (w : World) (r : Database × Option DmResult)
    (c : Conversations.CreateResult)
    → (Conversations.finish_dm me peer now_read w r).1 ≡ some c
    → is_error (ConversationController.create_reply c) ≡ false
unfolding Conversations.finish_dm ConversationController.create_reply
finish_dm-Exact me peer now_read w (db, none) c h = cc
finish_dm-Exact me peer now_read w (db, some r) c h = ground (arith, h)

create_dm-none :
    (me peer : SteamId) (now now_read : Time) (w : World)
    → (Conversations.create_dm me peer now now_read w).1 ≡ none
    → (Conversations.create_dm me peer now now_read w).0 ≡ id_taken w
unfolding Conversations.create_dm
create_dm-none me peer now now_read w h = ground (
  arith,
  h,
  finish_dm-none me peer now_read w (Repository.get_or_create_dm me peer now w.db)
      (get_or_create_dm-thrown me peer now w.db),
)

create_dm-Exact :
    (me peer : SteamId) (now now_read : Time) (w : World) (c : Conversations.CreateResult)
    → (Conversations.create_dm me peer now now_read w).1 ≡ some c
    → Exact w
        ((Conversations.create_dm me peer now now_read w).0, ConversationController.create_reply c)
unfolding Conversations.create_dm
create_dm-Exact me peer now now_read w c h e = ground (
  arith,
  h,
  e,
  finish_dm-Exact me peer now_read w (Repository.get_or_create_dm me peer now w.db) c,
)

create_dm_with-Atomic :
    (me : SteamId) (peer : Option SteamId) (t : Clock) (w : World)
    → Atomic w (ConversationController.create_dm_with me peer t.first t.second w)
unfolding ConversationController.create_dm_with
create_dm_with-Atomic me none t w e = inl refl
create_dm_with-Atomic me (some peer) t w e =
    created_or_thrown-Atomic w (Conversations.create_dm me peer t.first t.second w)
      (create_dm-none me peer t.first t.second w) (create_dm-Exact me peer t.first t.second w) e

create_palette_with-Exact :
    (me : SteamId) (name : Bytes) (invitees : Option (List SteamId)) (t : Clock) (w : World)
    → Exact w (ConversationController.create_palette_with me name invitees t.first t.second w)
unfolding ConversationController.create_palette_with Conversations.create_palette
    Conversations.write_palette
create_palette_with-Exact me name none t w e = refl
create_palette_with-Exact me name (some invitees) t w e = ground (arith, e)

create_of_kind-Atomic :
    (me : SteamId) (kind : Option ConversationKind) (body : CreateConversationDto) (t : Clock)
    (w : World)
    → Atomic w (ConversationController.create_of_kind me kind body t.first t.second w)
unfolding ConversationController.create_of_kind
create_of_kind-Atomic me none body t w e = inl refl
create_of_kind-Atomic me (some dm) body t w e =
    create_dm_with-Atomic me (parse_steam_id body.peer_steam_id) t w e
create_of_kind-Atomic me (some palette) body t w e = inl (create_palette_with-Exact me _ _ t w e)

invite_to-Exact :
    (me : SteamId) (id : Option ConversationId) (invitee : Option SteamId) (t : Clock) (w : World)
    → Exact w (ConversationController.invite_to me id invitee t.first t.second t.third t.fourth w)
unfolding ConversationController.invite_to Conversations.invite Conversations.finish_invite
invite_to-Exact me none invitee t w e = refl
invite_to-Exact me (some id) none t w e = refl
invite_to-Exact me (some id) (some invitee) t w e = ground (arith, e)

sync_with-Exact :
    (me : SteamId) (cursors : Option (List SyncCursor)) (moment : MessageController.Since)
    (limit : ℤ) (t : Clock) (w : World)
    → Exact w (MessageController.sync_with me cursors moment limit t.first t.second w)
unfolding MessageController.sync_with
sync_with-Exact me none moment limit t w e = refl
sync_with-Exact me (some cursors) MessageController.invalid_since limit t w e = refl
sync_with-Exact me (some cursors) MessageController.not_given limit t w e = refl
sync_with-Exact me (some cursors) (MessageController.since moment) limit t w e = refl

messages_of-Exact :
    (me : SteamId) (id : Option ConversationId) (before : Option MessageId) (limit : ℤ) (w : World)
    → Exact w (MessageController.messages_of me id before limit w)
unfolding MessageController.messages_of
messages_of-Exact me none before limit w e = refl
messages_of-Exact me (some id) none limit w e = refl
messages_of-Exact me (some id) (some before) limit w e = refl

-- Where no message is deleted, nothing is changed.
soft_delete-not_found :
    (id : ConversationId) (message : MessageId) (me : SteamId) (now : Time) (db : Database)
    → (soft_delete id message me now db).0 ≡ not_found
    → (soft_delete id message me now db).1 ≡ db
unfolding soft_delete mark_message_deleted
soft_delete-not_found id message me now db h =
    elim (Bool-cases
      (exists (λ r. of_sender message id me r && is_none r.deleted_at) db.message_data)) [
        | inl marked ↦ ground (arith, marked, h)
        | inr unmarked ↦ ground (
          arith,
          unmarked,
          update-absent (λ r. of_sender message id me r && is_none r.deleted_at)
              (λ r. record r { deleted_at = some now; text_message = [] }) db.message_data unmarked,
        )
      ]

remove_message_of-Exact :
    (me : SteamId) (id : Option ConversationId) (message : Option MessageId) (now : Time)
    (w : World)
    → Exact w (MessageController.remove_message_of me id message now w)
unfolding MessageController.remove_message_of Chat.remove
remove_message_of-Exact me none message now w e = refl
remove_message_of-Exact me (some id) none now w e = refl
remove_message_of-Exact me (some id) (some message) now w e =
    ground (arith, e, soft_delete-not_found id message me now w.db)

-- An invitation that is accepted is one to a conversation that is there: what the foreign keys of
-- the tables see to.
abbrev pub Joinable : World → Type 0
Joinable w =
    (me : SteamId) (id : ConversationId) (now now_read : Time)
    → (Repository.accept_invite id me now w.db).0 ≡ true
    → is_some (Repository.get id now_read (Repository.accept_invite id me now w.db).1) ≡ true

accept_invite_to-Exact :
    (me : SteamId) (id : Option ConversationId) (now now_read : Time) (w : World)
    → Joinable w
    → Exact w (ConversationController.accept_invite_to me id now now_read w)
unfolding ConversationController.accept_invite_to Conversations.accept_invite
    Conversations.finish_accept
accept_invite_to-Exact me none now now_read w j e = refl
accept_invite_to-Exact me (some id) now now_read w j e = ground (arith, e, j me id now now_read)

-- A request about contacts, conversations or messages that is answered with an error, whoever sends
-- it, leaves the database and the published events as they were, on tables where every invitation
-- that can be accepted is to a conversation that is there. Only where the database refuses a dm, and
-- the answer is the exception of that, the sequence of the ids of conversations is one further.
pub handle-atomic :
    (r : Request) (caller : Option SteamId) (t : Clock) (w : World)
    → Joinable w
    → is_error (handle r caller t w).1 ≡ true
    → ((handle r caller t w).0 ≡ w)
      ⊎ (((handle r caller t w).0 ≡ id_taken w) × ((handle r caller t w).1 ≡ dm_refused))
unfolding handle ContactController.contacts ContactController.send_request
    ContactController.accept_request ContactController.decline_request ContactController.set_level
    ContactController.remove_contact ConversationController.create_conversation
    ConversationController.invite ConversationController.accept_invite
    ConversationController.decline_invite MessageController.sync MessageController.messages
    MessageController.remove_message
handle-atomic get_contacts caller t w j = require_identity-Exact caller _ w (λ me e. refl)
handle-atomic (post_request body) caller t w j =
    require_identity-Exact caller _ w
      (λ me. send_request_to-Exact me (parse_steam_id body.steam_id) t w)
handle-atomic (accept_request steam_id) caller t w j =
    require_identity-Exact caller _ w
      (λ me. accept_request_of-Exact me (parse_steam_id steam_id) t w)
handle-atomic (decline_request steam_id) caller t w j =
    require_identity-Exact caller
      (λ me. (
        ContactController.decline_request_of me (parse_steam_id steam_id) t.first w,
        response 204 no_body,
      ))
      w (λ me e. ground (arith, e))
handle-atomic (put_level steam_id body) caller t w j =
    require_identity-Exact caller _ w
      (λ me. set_level_to-Exact me (parse_steam_id steam_id) (level_named body.level) t w)
handle-atomic (delete_contact steam_id) caller t w j =
    require_identity-Exact caller
      (λ me.
        (ContactController.remove_contact_of me (parse_steam_id steam_id) w, response 204 no_body))
      w (λ me e. ground (arith, e))
handle-atomic (post_conversation body) caller t w j =
    require_identity-Atomic caller _ w
      (λ me. create_of_kind-Atomic me (kind_named body.kind) body t w)
handle-atomic (post_invite id body) caller t w j =
    require_identity-Exact caller _ w
      (λ me. invite_to-Exact me (parse_conversation_id id) (parse_steam_id body.steam_id) t w)
handle-atomic (accept_invite id) caller t w j =
    require_identity-Exact caller _ w
      (λ me. accept_invite_to-Exact me (parse_conversation_id id) t.first t.second w j)
handle-atomic (decline_invite id) caller t w j =
    require_identity-Exact caller
      (λ me. (
        ConversationController.decline_invite_to me (parse_conversation_id id) t.first w,
        response 204 no_body,
      ))
      w (λ me e. ground (arith, e))
handle-atomic (post_sync body) caller t w j = require_identity-Exact caller _ w (λ me.
    sync_with-Exact me (cursors_of body.cursors) (parse_since body.deleted_since)
      (limit_or_zero body.limit) t w)
handle-atomic (get_messages id before limit) caller t w j = require_identity-Exact caller _ w (λ me.
    messages_of-Exact me (parse_conversation_id id) (small (parse_unsigned (text_or_empty before)))
      (limit_or_zero limit) w)
handle-atomic (delete_message id message) caller t w j = require_identity-Exact caller _ w (λ me.
    remove_message_of-Exact me (parse_conversation_id id)
      (small (parse_unsigned (text_or_empty message))) t.first w)
