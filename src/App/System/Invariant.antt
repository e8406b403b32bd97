-- ===== src/App/System/Invariant.antt =====
-- The invariants of the contacts and of the messages hold of the system as a whole (src/transport,
-- src/service, src/storage).
use picasso_backend.Base.{sym, subst, List, [], ◌∷◌, Bytes}
use picasso_backend.Storage.Rows.{Database}
use picasso_backend.Storage.ContactQueries as ContactQueries
use picasso_backend.Storage.ContactRepository as ContactRepository
use picasso_backend.Storage.SocialGraph.{IsSocial}
use picasso_backend.Storage.MessageLog.{IsLog}
use picasso_backend.Service.Chat.Log.{submit-IsLog, remove-IsLog}
use picasso_backend.Service.Contacts.Invariant.{
  step, step-Social, request_call, accept_call, decline_call, set_level_call, remove_call,
}
use picasso_backend.App.System.{
  Action, http_request, login_return, login_poll, logout_request, ws_frame, System, database,
  login_state, act, act_all,
}
use picasso_backend.App.System.Logins.{auth_return-keeps, auth_logout-keeps, auth_poll-db}
use picasso_backend.App.System.Keeping.{ContactsKeep, ConversationsKeep, ChatKeeps, IsFrame}
use picasso_backend.App.System.Messages as Messages
use picasso_backend.App.System.Requests.{handle-keeps}
use picasso_backend.App.System.Social as Social
use picasso_backend.App.System.Sockets.{serve_frame-keeps}
use picasso_backend.App.System.Untouched.{conversations-Keep}

IsLog-frame : (a b : Database) → Messages.Same a b → IsLog a → IsLog b
IsLog-frame a b (rows, next) l = record {
  in_order = rw (sym rows) l.in_order;
  all_below = rw (sym rows, sym next) l.all_below;
  keyed = rw (sym rows) l.keyed;
}

IsSocial-frame : (a b : Database) → Social.Same a b → IsSocial a → IsSocial b
unfolding ContactRepository.level_of ContactRepository.request_state
    ContactQueries.select_contact_level ContactQueries.select_request_state
IsSocial-frame a b (contacts, requests) s = record {
  keyed_contacts = rw (sym contacts) s.keyed_contacts;
  keyed_requests = rw (sym requests) s.keyed_requests;
  no_self = λ x. rw (sym contacts) (s.no_self x);
  no_self_request = λ x. rw (sym requests) (s.no_self_request x);
  consistent = λ x y. rw (sym contacts, sym requests) (s.consistent x y);
}

-- What the tables of contacts and of messages keep to.
pub record IsHealthy (db : Database) : Type 0 where
  pub social : IsSocial db
  pub message_log : IsLog db

both : (db : Database) → IsSocial db → IsLog db → IsHealthy db
both db s l = record { social = s; message_log = l }

contacts_keep : ContactsKeep IsHealthy
unfolding step
contacts_keep =
    let logs = Messages.contacts_keep IsLog IsLog-frame in
    record {
      request = λ me target now now_counted w h.
          both _ (step-Social (request_call me target now now_counted) w h.social)
            (logs.request me target now now_counted w h.message_log);
      accept = λ me from now w h.
          both _ (step-Social (accept_call me from now) w h.social)
            (logs.accept me from now w h.message_log);
      decline = λ me other now w h.
          both _ (step-Social (decline_call me other now) w h.social)
            (logs.decline me other now w h.message_log);
      set_level = λ me other level now w h.
          both _ (step-Social (set_level_call me other level now) w h.social)
            (logs.set_level me other level now w h.message_log);
      remove = λ me other w h.
          both _ (step-Social (remove_call me other) w h.social)
            (logs.remove me other w h.message_log);
    }

chat_keeps : ChatKeeps IsHealthy
chat_keeps =
    let contacts = Social.chat_keeps IsSocial IsSocial-frame in
    record {
      submit = λ sender id key body origin now now_read c h.
          both _ (contacts.submit sender id key body origin now now_read c h.social)
            (submit-IsLog sender id key body origin now now_read c h.message_log);
      remove = λ me id message now w h.
          both _ (contacts.remove me id message now w h.social)
            (remove-IsLog me id message now w h.message_log);
    }

IsHealthy-frame : IsFrame IsHealthy
IsHealthy-frame a b contacts requests rows next h =
    both b (IsSocial-frame a b (contacts, requests) h.social)
      (IsLog-frame a b (rows, next) h.message_log)

conversations_keep : ConversationsKeep IsHealthy
conversations_keep = conversations-Keep IsHealthy IsHealthy-frame

module _ (sha256 : Bytes → Bytes) (page : Bytes) where
  act-IsHealthy :
      (a : Action) (s : System)
      → IsHealthy (database s)
      → IsHealthy (database (act sha256 page a s))
  unfolding act
  act-IsHealthy (http_request r caller t) s h =
      handle-keeps IsHealthy contacts_keep conversations_keep chat_keeps r caller t s.chat.world h
  act-IsHealthy (login_return post random query now now_parked) s h =
      auth_return-keeps IsHealthy IsHealthy-frame sha256 page post random query now now_parked
        (login_state s) h
  act-IsHealthy (login_poll state now) s h =
      subst IsHealthy (sym (auth_poll-db state now (login_state s))) h
  act-IsHealthy (logout_request authorization now) s h =
      auth_logout-keeps IsHealthy IsHealthy-frame sha256 page authorization now (login_state s) h
  act-IsHealthy (ws_frame mapper alive hub session frame now now_read) s h =
      serve_frame-keeps IsHealthy chat_keeps mapper alive hub now now_read session s.chat h frame

  -- After any sequence of HTTP requests, those of logins included, and of frames on web sockets,
  -- whoever sends them and whatever they are, a consistent database is consistent: the contacts, in
  -- which ally-ness is mutual and a block leaves neither a row of the other side nor a request, and
  -- the messages, whose ids grow from row to row and of which no two have the same conversation,
  -- sender and client id.
  pub act_all-IsHealthy :
      (actions : List Action) (s : System)
      → IsHealthy (database s)
      → IsHealthy (database (act_all sha256 page actions s))
  unfolding act_all
  act_all-IsHealthy [] s h = h
  act_all-IsHealthy (a ∷ rest) s h =
      act_all-IsHealthy rest (act sha256 page a s) (act-IsHealthy a s h)
