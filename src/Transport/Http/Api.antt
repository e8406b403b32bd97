-- ===== src/Transport/Http/Api.antt =====
-- The requests that need a session, as one: src/transport/http/ContactController.hpp and
-- src/transport/http/ConversationController.hpp.
pub mod Refusals
use picasso_backend.Base.{Bool, Option, Bytes}
use picasso_backend.Base.Int.{ℤ}
use picasso_backend.Domain.Ids.{SteamId, Time}
use picasso_backend.Dto.Rest.{
  CreateConversationDto, SteamIdBodyDto, ContactLevelBodyDto, SyncRequestDto,
}
use picasso_backend.Service.World.{World}
use picasso_backend.Transport.Http.ContactController as ContactController
use picasso_backend.Transport.Http.ConversationController as ConversationController
use picasso_backend.Transport.Http.MessageController as MessageController
use picasso_backend.Transport.Http.Reply.{Reply}

pub data Request : Type 0 where
  get_contacts : Request
  post_request : SteamIdBodyDto → Request
  accept_request : (steam_id : Option Bytes) → Request
  decline_request : (steam_id : Option Bytes) → Request
  put_level : (steam_id : Option Bytes) → ContactLevelBodyDto → Request
  delete_contact : (steam_id : Option Bytes) → Request
  post_conversation : CreateConversationDto → Request
  post_invite : (conversation_id : Option Bytes) → SteamIdBodyDto → Request
  accept_invite : (conversation_id : Option Bytes) → Request
  decline_invite : (conversation_id : Option Bytes) → Request
  post_sync : SyncRequestDto → Request
  get_messages : (conversation_id before : Option Bytes) (limit : Option ℤ) → Request
  delete_message : (conversation_id message_id : Option Bytes) → Request

-- The readings of the clock during one request, in the order of the arguments.
pub record Clock : Type 0 where
  pub first : Time
  pub second : Time
  pub third : Time
  pub fourth : Time

unfoldable pub handle : Request → Option SteamId → Clock → World → World × Reply
handle get_contacts caller t w = ContactController.contacts caller t.first t.second w
handle (post_request body) caller t w =
    ContactController.send_request caller body t.first t.second w
handle (accept_request steam_id) caller t w =
    ContactController.accept_request caller steam_id t.first w
handle (decline_request steam_id) caller t w =
    ContactController.decline_request caller steam_id t.first w
handle (put_level steam_id body) caller t w =
    ContactController.set_level caller steam_id body t.first w
handle (delete_contact steam_id) caller t w = ContactController.remove_contact caller steam_id w
handle (post_conversation body) caller t w =
    ConversationController.create_conversation caller body t.first t.second w
handle (post_invite conversation_id body) caller t w =
    ConversationController.invite caller conversation_id body t.first t.second t.third t.fourth w
handle (accept_invite conversation_id) caller t w =
    ConversationController.accept_invite caller conversation_id t.first t.second w
handle (decline_invite conversation_id) caller t w =
    ConversationController.decline_invite caller conversation_id t.first w
handle (post_sync body) caller t w = MessageController.sync caller body t.first t.second w
handle (get_messages conversation_id before limit) caller t w =
    MessageController.messages caller conversation_id before limit w
handle (delete_message conversation_id message_id) caller t w =
    MessageController.remove_message caller conversation_id message_id t.first w
