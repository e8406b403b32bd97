-- ===== src/Service/Chat/Log.antt =====
-- Every call of the chat service keeps the message log (src/service/ChatService.cpp).
use picasso_backend.Base.{
  ◌≡◌, not, List, [], ◌∷◌, Option, none, some, Bytes, arith, if_both, ◌==◌, nat_eq, ltb, length,
  Option-cases, inl, inr,
}
use picasso_backend.Base.Table.{exists}
use picasso_backend.Domain.Message.{max_body_bytes}
use picasso_backend.Service.Chat.Rate.{take_token}
use picasso_backend.Domain.Ids.{SteamId, ConversationId, MessageId, ConnectionId, Time}
use picasso_backend.Domain.Conversation.{Conversation}
use picasso_backend.Storage.Rows.{Database}
use picasso_backend.Storage.ChatQueries.{insert_message, mark_message_deleted}
use picasso_backend.Storage.ChatRepository.{AppendResult, append, soft_delete}
use picasso_backend.Storage.MessageLog.{IsLog, insert_message-IsLog, mark_message_deleted-IsLog}
use picasso_backend.Storage.ConversationRepository as Conversations
use picasso_backend.Service.World.{World, publish}
use picasso_backend.Service.Chat.{
  rejected, invalid, too_long, rate_limited, not_member, not_allowed, is_invalid, is_writable,
  ChatState, SubmitResult, announce, store, deliver, submit, remove,
}

append_rows :
    (c : ConversationId) (sender : SteamId) (key body : Bytes) (now : Time) (db : Database)
    → (append c sender key body now db).1 ≡ (insert_message c sender key body now db).1
unfolding append
append_rows c sender key body now db =
    elim (Option-cases (insert_message c sender key body now db).0) [
      | inl absent ↦ ground (arith, absent)
      | inr (r, found) ↦ ground (arith, found)
    ]

announce-IsLog :
    (members : List SteamId) (origin : ConnectionId) (r : Option AppendResult) (w : World)
    → IsLog w.db
    → IsLog (announce members origin r w).0.db
unfolding announce publish
announce-IsLog members origin none w l = l
announce-IsLog members origin (some r) w l =
    if_both (λ (x : World × SubmitResult). IsLog x.0.db) r.duplicate l l

deliver-IsLog :
    (sender : SteamId) (key body : Bytes) (origin : ConnectionId) (now : Time)
    (o : Option Conversation) (w : World)
    → IsLog w.db
    → IsLog (deliver sender key body origin now o w).0.db
unfolding deliver store
deliver-IsLog sender key body origin now none w l = l
deliver-IsLog sender key body origin now (some c) w l =
    let (r, db') = append c.id sender key body now w.db in
    let l' : IsLog db' =
      rw (append_rows c.id sender key body now w.db)
        (insert_message-IsLog c.id sender key body now w.db l) in
    if_both (λ (x : World × SubmitResult). IsLog x.0.db) (not (exists (λ m. m == sender) c.members))
      {x = (w, rejected not_member)} l
      (if_both (λ (x : World × SubmitResult). IsLog x.0.db) (not (is_writable sender c w.db))
        {x = (w, rejected not_allowed)} {y = store sender key body origin now c w} l
        (announce-IsLog c.members origin r (record w { db = db' }) l'))

pub submit-IsLog :
    (sender : SteamId) (id : ConversationId) (key body : Bytes) (origin : ConnectionId)
    (now now_read : Time) (s : ChatState)
    → IsLog s.world.db
    → IsLog (submit sender id key body origin now now_read s).0.world.db
unfolding submit
submit-IsLog sender id key body origin now now_read s l =
    let (granted, buckets') = take_token sender now s.buckets in
    let o = Conversations.get id now_read s.world.db in
    let (w', result) = deliver sender key body origin now o s.world in
    if_both (λ (x : ChatState × SubmitResult). IsLog x.0.world.db) (is_invalid key body)
      {x = (s, rejected invalid)} l
      (if_both (λ (x : ChatState × SubmitResult). IsLog x.0.world.db)
        (ltb max_body_bytes (length body)) {x = (s, rejected too_long)} l
        (if_both (λ (x : ChatState × SubmitResult). IsLog x.0.world.db) (not granted)
          {x = (record s { buckets = buckets' }, rejected rate_limited)}
          {y = (record { world = w'; buckets = buckets' }, result)} l
          (deliver-IsLog sender key body origin now o s.world l)))

remove_marked :
    (me : SteamId) (c : ConversationId) (id : MessageId) (now : Time) (w : World)
    → (remove me c id now w).0.db ≡ (mark_message_deleted id c me now w.db).1
unfolding remove soft_delete publish
remove_marked me c id now w = ground arith

pub remove-IsLog :
    (me : SteamId) (c : ConversationId) (id : MessageId) (now : Time) (w : World)
    → IsLog w.db
    → IsLog (remove me c id now w).0.db
remove-IsLog me c id now w l =
    rw (remove_marked me c id now w) (mark_message_deleted-IsLog id c me now w.db l)

pub data Call : Type 0 where
  submit_call :
      (sender : SteamId) (id : ConversationId) (key body : Bytes) (origin : ConnectionId)
      (now now_read : Time)
      → Call
  remove_call : (me : SteamId) (c : ConversationId) (id : MessageId) (now : Time) → Call

unfoldable pub step : Call → ChatState → ChatState
step (submit_call sender id key body origin now now_read) s =
    (submit sender id key body origin now now_read s).0
step (remove_call me c id now) s = record s { world = (remove me c id now s.world).0 }

unfoldable pub run : List Call → ChatState → ChatState
unfolding step
run [] s = s
run (c ∷ cs) s = run cs (step c s)

step-IsLog : (c : Call) (s : ChatState) → IsLog s.world.db → IsLog (step c s).world.db
unfolding step
step-IsLog (submit_call sender id key body origin now now_read) s l =
    submit-IsLog sender id key body origin now now_read s l
step-IsLog (remove_call me c id now) s l = remove-IsLog me c id now s.world l

-- After any sequence of sends and removals on a message log, the ids of the table still grow from
-- row to row and are below the next one, and no two rows have the same conversation, sender and
-- client id.
pub run-IsLog : (cs : List Call) (s : ChatState) → IsLog s.world.db → IsLog (run cs s).world.db
unfolding run
run-IsLog [] s l = l
run-IsLog (c ∷ cs) s l = run-IsLog cs (step c s) (step-IsLog c s l)
