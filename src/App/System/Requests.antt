-- ===== src/App/System/Requests.antt =====
-- A property that the services keep is kept by every request
-- (src/transport/http).
use picasso_backend.Base.{List, Option, none, some}
use picasso_backend.Base.Int.{ℤ}
use picasso_backend.Domain.Ids.{SteamId, ConversationId, MessageId, Time}
use picasso_backend.Storage.Rows.{Database}
use picasso_backend.Service.CatchUp.{SyncCursor}
use picasso_backend.Service.World.{World}
use picasso_backend.App.System.Keeping.{ContactsKeep, ConversationsKeep, ChatKeeps}
use picasso_backend.Transport.Http.{parse_steam_id, parse_conversation_id, parse_unsigned}
use picasso_backend.Transport.Http.Api.{
  Request, Clock, handle, get_contacts, post_request, accept_request, decline_request, put_level,
  delete_contact, post_conversation, post_invite, accept_invite, decline_invite, post_sync,
  get_messages, delete_message,
}
use picasso_backend.Transport.Http.ContactController as ContactController
use picasso_backend.Transport.Http.ContactController.{level_named}
use picasso_backend.Transport.Http.ConversationController as ConversationController
use picasso_backend.Transport.Http.ConversationController.{
  kind_named, text_or_empty, invitees_of, created_or_thrown,
}
use picasso_backend.Transport.Http.MessageController as MessageController
use picasso_backend.Transport.Http.MessageController.{
  Since, cursors_of, parse_since, limit_or_zero, small,
}
use picasso_backend.App.System.Endpoints.{
  require_identity-keeps, send_request_to-keeps, accept_request_of-keeps, decline_request_of-keeps,
  set_level_to-keeps, remove_contact_of-keeps, create_of_kind-keeps, invite_to-keeps,
  accept_invite_to-keeps, decline_invite_to-keeps, remove_message_of-keeps,
}

module _ (P : Database → Type 0) (contacts : ContactsKeep P) (conversations : ConversationsKeep P)
    (chat : ChatKeeps P) where
  sync_with-keeps :
      (me : SteamId) (cursors : Option (List SyncCursor)) (moment : Since) (limit : ℤ)
      (now now_read : Time) (w : World)
      → P w.db
      → P (MessageController.sync_with me cursors moment limit now now_read w).0.db
  unfolding MessageController.sync_with
  sync_with-keeps me none moment limit now now_read w h = h
  sync_with-keeps me (some cursors) MessageController.invalid_since limit now now_read w h = h
  sync_with-keeps me (some cursors) MessageController.not_given limit now now_read w h = h
  sync_with-keeps me (some cursors) (MessageController.since moment) limit now now_read w h = h

  messages_of-keeps :
      (me : SteamId) (id : Option ConversationId) (before : Option MessageId) (limit : ℤ)
      (w : World)
      → P w.db
      → P (MessageController.messages_of me id before limit w).0.db
  unfolding MessageController.messages_of
  messages_of-keeps me none before limit w h = h
  messages_of-keeps me (some id) none limit w h = h
  messages_of-keeps me (some id) (some before) limit w h = h

  pub handle-keeps :
      (r : Request) (caller : Option SteamId) (t : Clock) (w : World)
      → P w.db
      → P (handle r caller t w).0.db
  unfolding handle ContactController.contacts ContactController.send_request
      ContactController.accept_request ContactController.decline_request ContactController.set_level
      ContactController.remove_contact ConversationController.create_conversation
      ConversationController.invite ConversationController.accept_invite
      ConversationController.decline_invite MessageController.sync MessageController.messages
      MessageController.remove_message
  handle-keeps get_contacts caller t w h = require_identity-keeps P caller _ w h (λ me. h)
  handle-keeps (post_request body) caller t w h = require_identity-keeps P caller _ w h (λ me.
      send_request_to-keeps P contacts me (parse_steam_id body.steam_id) t.first t.second w h)
  handle-keeps (accept_request steam_id) caller t w h =
      require_identity-keeps P caller _ w h
        (λ me. accept_request_of-keeps P contacts me (parse_steam_id steam_id) t.first w h)
  handle-keeps (decline_request steam_id) caller t w h =
      require_identity-keeps P caller _ w h
        (λ me. decline_request_of-keeps P contacts me (parse_steam_id steam_id) t.first w h)
  handle-keeps (put_level steam_id body) caller t w h = require_identity-keeps P caller _ w h (λ me.
      set_level_to-keeps P contacts me (parse_steam_id steam_id) (level_named body.level) t.first w
        h)
  handle-keeps (delete_contact steam_id) caller t w h =
      require_identity-keeps P caller _ w h
        (λ me. remove_contact_of-keeps P contacts me (parse_steam_id steam_id) w h)
  handle-keeps (post_conversation body) caller t w h = require_identity-keeps P caller _ w h (λ me.
      create_of_kind-keeps P conversations me (kind_named body.kind) body t.first t.second w h)
  handle-keeps (post_invite id body) caller t w h = require_identity-keeps P caller _ w h (λ me.
      invite_to-keeps P conversations me (parse_conversation_id id) (parse_steam_id body.steam_id) t
        w h)
  handle-keeps (accept_invite id) caller t w h = require_identity-keeps P caller _ w h (λ me.
      accept_invite_to-keeps P conversations me (parse_conversation_id id) t.first t.second w h)
  handle-keeps (decline_invite id) caller t w h =
      require_identity-keeps P caller _ w h
        (λ me. decline_invite_to-keeps P conversations me (parse_conversation_id id) t.first w h)
  handle-keeps (post_sync body) caller t w h = require_identity-keeps P caller _ w h (λ me.
      sync_with-keeps me (cursors_of body.cursors) (parse_since body.deleted_since)
        (limit_or_zero body.limit) t.first t.second w h)
  handle-keeps (get_messages id before limit) caller t w h =
      require_identity-keeps P caller _ w h (λ me.
        messages_of-keeps me (parse_conversation_id id)
          (small (parse_unsigned (text_or_empty before))) (limit_or_zero limit) w h)
  handle-keeps (delete_message id message) caller t w h =
      require_identity-keeps P caller _ w h (λ me.
        remove_message_of-keeps P chat me (parse_conversation_id id)
          (small (parse_unsigned (text_or_empty message))) t.first w h)
