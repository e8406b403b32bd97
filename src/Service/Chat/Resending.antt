-- ===== src/Service/Chat/Resending.antt =====
-- A message that is sent again (src/service/ChatService.cpp, src/storage/PgChatRepository.cpp).
use mathlib.Core.Option
use picasso_backend.Base.{
  ◌+◌, ◌≡◌, refl, sym, ◌∙◌, ap, true, List, [], ◌∷◌, ◌++◌, none, some, Bytes, arith, triple_eq,
  nat_eq, ==_refl, Option-cases, inl, inr, subst,
}
use picasso_backend.Base.Table.{find_by, find_by-snoc}
use picasso_backend.Domain.Ids.{SteamId, ConversationId, MessageId, ConnectionId, Time}
use picasso_backend.Domain.Conversation.{Conversation}
use picasso_backend.Domain.Message.{Message}
use picasso_backend.Storage.Rows.{Database, MessageRow}
use picasso_backend.Storage.ContactQueries.{select_can_communicate}
use picasso_backend.Storage.ContactRepository.{can_communicate}
use picasso_backend.Storage.ConversationQueries.{
  select_conversation, select_members, select_pending_invitees_of, conversation_key,
}
use picasso_backend.Storage.ConversationRepository.{invited_to, to_conversation, get, members}
use picasso_backend.Storage.ChatQueries.{message_key, message_row}
use picasso_backend.Storage.ChatRepository.{to_message}
use picasso_backend.Service.World.{World}
use picasso_backend.Service.Chat.Sending.{earlier, store-repeated}
use picasso_backend.Service.Chat.Submitting.{PassesChecks, MayWrite, submit-stored, submit-passes}
use picasso_backend.Service.Chat.{ChatState, stored, duplicate, is_writable, deliver, submit}

-- Messages are no part of a conversation; another reading of the clock changes at most who is
-- invited.
module _ (id : ConversationId) (now later : Time) (next : MessageId) (rows : List MessageRow)
    (db : Database) where
  with_messages : Database
  with_messages = record db { next_message_id = next; message_data = rows }

  reread : Conversation → Conversation
  reread c = record c { invited = invited_to c.kind id later db }

  get-reread : get id later with_messages ≡ Option.map reread (get id now db)
  unfolding get to_conversation select_conversation with_messages members select_members invited_to
      reread select_pending_invitees_of
  get-reread = elim (Option-cases (find_by conversation_key id db.conversations)) [
    | inl absent ↦ rw (absent, get) refl
    | inr (row, found) ↦ rw (found, get) refl
  ]

  get-later :
      (c : Conversation) → get id now db ≡ some c → get id later with_messages ≡ some (reread c)
  get-later c h = get-reread ∙ ap (Option.map reread) h

  is_writable-later :
      (sender : SteamId) (c : Conversation)
      → is_writable sender (reread c) with_messages ≡ is_writable sender c db
  unfolding is_writable with_messages can_communicate select_can_communicate reread
  is_writable-later sender c = refl

earlier-stored :
    (c : ConversationId) (sender : SteamId) (key body : Bytes) (now : Time) (db : Database)
    → earlier c sender key db ≡ none
    → let row = message_row c sender key body now db in
      find_by message_key (c, sender, key) (db.message_data ++ row ∷ []) ≡ some row
earlier-stored c sender key body now db h =
    let row = message_row c sender key body now db in
    ground (
      arith,
      h,
      find_by-snoc message_key (c, sender, key) row db.message_data,
      ==_refl {A = ConversationId × SteamId × Bytes} (c, sender, key),
    )

module _ (sender : SteamId) (key body : Bytes) (origin : ConnectionId) (now : Time)
    (c : Conversation) (w : World) where
  deliver-repeated :
      (r : MessageRow)
      → MayWrite sender c w.db
      → earlier c.id sender key w.db ≡ some r
      → deliver sender key body origin now (some c) w ≡ (
        record w { db = record w.db { next_message_id = w.db.next_message_id + 1 } },
        duplicate (to_message r),
      )
  unfolding deliver
  deliver-repeated r m h =
      ground (arith, m.member, m.writable, store-repeated sender key body origin now c w r h)

-- After a message was stored, sending it again with the same client id is answered with the stored
-- message, whatever the text, the time and the connection of the second call, if that passes the
-- checks before the lock. It publishes nothing and stores nothing.
pub submit_again :
    (sender : SteamId) (id : ConversationId) (key body body_again : Bytes)
    (origin origin_again : ConnectionId) (now now_read now_again now_read_again : Time)
    (s : ChatState) (m : Message)
    → let first = submit sender id key body origin now now_read s in
      first.1 ≡ stored m
      → PassesChecks sender key body_again now_again first.0
      → let again = submit sender id key body_again origin_again now_again now_read_again first.0 in
        (again.1 ≡ duplicate m)
        × (again.0.world.published ≡ first.0.world.published)
        × (again.0.world.db.message_data ≡ first.0.world.db.message_data)
unfolding reread with_messages
submit_again sender id key body body_again origin origin_again now now_read now_again now_read_again
      s m h p =
    let (passed, (c, there, may, sent)) =
      submit-stored sender id key body origin now now_read s m h in
    let s' : ChatState = (submit sender id key body origin now now_read s).0 in
    let db = s.world.db in
    let row : MessageRow = message_row c.id sender key body now db in
    let rows = db.message_data ++ row ∷ [] in
    let next = db.next_message_id + 1 in
    let c' : Conversation = reread id now_read now_read_again next rows db c in
    let found : get id now_read_again s'.world.db ≡ some c' =
      subst (λ d. get id now_read_again d ≡ some c') (sym sent.kept)
        (get-later id now_read now_read_again next rows db c there) in
    let writable : is_writable sender c' s'.world.db ≡ true =
      subst (λ d. is_writable sender c' d ≡ true) (sym sent.kept)
        (is_writable-later id now_read now_read_again next rows db sender c ∙ may.writable) in
    let here : earlier c'.id sender key s'.world.db ≡ some row =
      subst (λ d. earlier c'.id sender key d ≡ some row) (sym sent.kept)
        (earlier-stored c.id sender key body now db sent.is_new) in
    let delivered =
      deliver-repeated sender key body_again origin_again now_again c' s'.world row
        (record { member = may.member; writable = writable }) here in
    rw
      (
        submit-passes sender id key body_again origin_again now_again now_read_again s' p,
        found,
        delivered,
      )
      (ap duplicate (sym sent.row), refl, refl)
