-- ===== src/App/System/Endpoints.antt =====
-- A property that the services keep is kept by the endpoints that call them
-- (src/transport/http).
use picasso_backend.Base.{List, Option, none, some, Bytes}
use picasso_backend.Domain.Ids.{SteamId, ConversationId, MessageId, Time}
use picasso_backend.Domain.Contact.{ContactLevel}
use picasso_backend.Domain.Conversation.{ConversationKind, dm, palette}
use picasso_backend.Dto.Rest.{CreateConversationDto}
use picasso_backend.Storage.Rows.{Database}
use picasso_backend.Service.Conversations as Conversations
use picasso_backend.Service.World.{World}
use picasso_backend.App.System.Keeping.{ContactsKeep, ConversationsKeep, ChatKeeps}
use picasso_backend.Transport.Http.{parse_steam_id}
use picasso_backend.Transport.Http.Api.{Clock}
use picasso_backend.Transport.Http.ContactController as ContactController
use picasso_backend.Transport.Http.ContactController.{level_named}
use picasso_backend.Transport.Http.ConversationController as ConversationController
use picasso_backend.Transport.Http.ConversationController.{
  kind_named, text_or_empty, invitees_of, created_or_thrown,
}
use picasso_backend.Transport.Http.MessageController as MessageController
use picasso_backend.Transport.Http.MessageController.{
  Since, cursors_of, parse_since, limit_or_zero, small,
}
use picasso_backend.Transport.Http.Reply.{Reply, require_identity}

module _ (P : Database → Type 0) where
  pub require_identity-keeps :
      (caller : Option SteamId) (endpoint : SteamId → World × Reply) (w : World)
      → P w.db
      → ((me : SteamId) → P (endpoint me).0.db)
      → P (require_identity caller endpoint w).0.db
  unfolding require_identity
  require_identity-keeps none endpoint w h e = h
  require_identity-keeps (some me) endpoint w h e = e me

  module _ (k : ContactsKeep P) where
    pub send_request_to-keeps :
        (me : SteamId) (target : Option SteamId) (now now_counted : Time) (w : World)
        → P w.db
        → P (ContactController.send_request_to me target now now_counted w).0.db
    unfolding ContactController.send_request_to
    send_request_to-keeps me none now now_counted w h = h
    send_request_to-keeps me (some target) now now_counted w h =
        k.request me target now now_counted w h

    pub accept_request_of-keeps :
        (me : SteamId) (from : Option SteamId) (now : Time) (w : World)
        → P w.db
        → P (ContactController.accept_request_of me from now w).0.db
    unfolding ContactController.accept_request_of
    accept_request_of-keeps me none now w h = h
    accept_request_of-keeps me (some from) now w h = k.accept me from now w h

    pub decline_request_of-keeps :
        (me : SteamId) (other : Option SteamId) (now : Time) (w : World)
        → P w.db
        → P (ContactController.decline_request_of me other now w).db
    unfolding ContactController.decline_request_of
    decline_request_of-keeps me none now w h = h
    decline_request_of-keeps me (some other) now w h = k.decline me other now w h

    pub set_level_to-keeps :
        (me : SteamId) (other : Option SteamId) (level : Option ContactLevel) (now : Time)
        (w : World)
        → P w.db
        → P (ContactController.set_level_to me other level now w).0.db
    unfolding ContactController.set_level_to
    set_level_to-keeps me none level now w h = h
    set_level_to-keeps me (some other) none now w h = h
    set_level_to-keeps me (some other) (some level) now w h = k.set_level me other level now w h

    pub remove_contact_of-keeps :
        (me : SteamId) (other : Option SteamId) (w : World)
        → P w.db
        → P (ContactController.remove_contact_of me other w).db
    unfolding ContactController.remove_contact_of
    remove_contact_of-keeps me none w h = h
    remove_contact_of-keeps me (some other) w h = k.remove me other w h

  module _ (k : ConversationsKeep P) where
    pub created_or_thrown-keeps :
        (r : World × Option Conversations.CreateResult) → P r.0.db → P (created_or_thrown r).0.db
    created_or_thrown-keeps (w, none) h = h
    created_or_thrown-keeps (w, some r) h = h

    pub create_of_kind-keeps :
        (me : SteamId) (kind : Option ConversationKind) (body : CreateConversationDto)
        (now now_read : Time) (w : World)
        → P w.db
        → P (ConversationController.create_of_kind me kind body now now_read w).0.db
    unfolding ConversationController.create_of_kind ConversationController.create_dm_with
        ConversationController.create_palette_with
    create_of_kind-keeps me none body now now_read w h = h
    create_of_kind-keeps me (some dm) body now now_read w h =
        dm_keeps (parse_steam_id body.peer_steam_id)
      where
        dm_keeps :
            (peer : Option SteamId)
            → P (ConversationController.create_dm_with me peer now now_read w).0.db
        dm_keeps none = h
        dm_keeps (some peer) =
            created_or_thrown-keeps (Conversations.create_dm me peer now now_read w)
              (k.create_dm me peer now now_read w h)
    create_of_kind-keeps me (some palette) body now now_read w h =
        palette_keeps (text_or_empty body.name) (invitees_of body.invite_steam_ids)
      where
        palette_keeps :
            (name : Bytes) (invitees : Option (List SteamId))
            → P (ConversationController.create_palette_with me name invitees now now_read w).0.db
        palette_keeps name none = h
        palette_keeps name (some invitees) = k.create_palette me name invitees now now_read w h

    pub invite_to-keeps :
        (me : SteamId) (id : Option ConversationId) (invitee : Option SteamId) (t : Clock)
        (w : World)
        → P w.db
        → P
            (ConversationController.invite_to me id invitee t.first t.second t.third t.fourth
              w).0.db
    unfolding ConversationController.invite_to
    invite_to-keeps me none invitee t w h = h
    invite_to-keeps me (some id) none t w h = h
    invite_to-keeps me (some id) (some invitee) t w h =
        k.invite me id invitee t.first t.second t.third t.fourth w h

    pub accept_invite_to-keeps :
        (me : SteamId) (id : Option ConversationId) (now now_read : Time) (w : World)
        → P w.db
        → P (ConversationController.accept_invite_to me id now now_read w).0.db
    unfolding ConversationController.accept_invite_to
    accept_invite_to-keeps me none now now_read w h = h
    accept_invite_to-keeps me (some id) now now_read w h = k.accept_invite me id now now_read w h

    pub decline_invite_to-keeps :
        (me : SteamId) (id : Option ConversationId) (now : Time) (w : World)
        → P w.db
        → P (ConversationController.decline_invite_to me id now w).db
    unfolding ConversationController.decline_invite_to
    decline_invite_to-keeps me none now w h = h
    decline_invite_to-keeps me (some id) now w h = k.decline_invite me id now w h

  module _ (k : ChatKeeps P) where
    pub remove_message_of-keeps :
        (me : SteamId) (id : Option ConversationId) (message : Option MessageId) (now : Time)
        (w : World)
        → P w.db
        → P (MessageController.remove_message_of me id message now w).0.db
    unfolding MessageController.remove_message_of
    remove_message_of-keeps me none message now w h = h
    remove_message_of-keeps me (some id) none now w h = h
    remove_message_of-keeps me (some id) (some message) now w h = k.remove me id message now w h
