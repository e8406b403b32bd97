-- ===== src/Service/Chat/Submitting.antt =====
-- The answers of `submit` (src/service/ChatService.cpp).
use picasso_backend.Base.{
  ◌+◌, ◌≡◌, ◌≢◌, refl, sym, ◌∙◌, ap, Bool, true, false, not, ◌||◌, [], ◌∷◌, ◌++◌, Option, none,
  some, Bytes, length, ltb, nat_beq, nat_eq, arith, Bool-cases, Option-cases, inl, inr,
}
use picasso_backend.Base.Table.{exists}
use picasso_backend.Domain.Ids.{SteamId, ConversationId, ConnectionId, Time}
use picasso_backend.Domain.Conversation.{Conversation}
use picasso_backend.Domain.Message.{Message, max_body_bytes}
use picasso_backend.Domain.Events.{chat_delivered}
use picasso_backend.Storage.Rows.{Database}
use picasso_backend.Storage.ChatQueries.{message_row}
use picasso_backend.Storage.ChatRepository.{to_message}
use picasso_backend.Storage.ConversationRepository as Conversations
use picasso_backend.Service.World.{World, publish}
use picasso_backend.Service.Chat.Rate.{take_token}
use picasso_backend.Service.Chat.Sending.{earlier, append-fresh, store-fresh, store-repeated}
use picasso_backend.Service.Chat.{
  ChatState, stored, duplicate, rejected, RejectCode, internal, is_invalid, is_writable, deliver,
  submit,
}

-- The checks before the lock.
pub record PassesChecks (sender : SteamId) (key body : Bytes) (now : Time) (s : ChatState)
    : Type 0 where
  pub valid : is_invalid key body ≡ false
  pub short : ltb max_body_bytes (length body) ≡ false
  pub granted : (take_token sender now s.buckets).0 ≡ true

-- The checks under the lock.
pub record MayWrite (sender : SteamId) (c : Conversation) (db : Database) : Type 0 where
  pub member : exists (λ m. nat_beq m sender) c.members ≡ true
  pub writable : is_writable sender c db ≡ true

-- What a new message changes.
pub record IsSent (sender : SteamId) (key body : Bytes) (origin : ConnectionId) (now : Time)
    (c : Conversation) (w w' : World) (m : Message) : Type 0 where
  pub is_new : earlier c.id sender key w.db ≡ none
  pub row : m ≡ to_message (message_row c.id sender key body now w.db)
  pub kept : w'.db ≡ record w.db {
    next_message_id = w.db.next_message_id + 1;
    message_data = w.db.message_data ++ message_row c.id sender key body now w.db ∷ [];
  }
  pub told : w'.published ≡ w.published ++ chat_delivered c.members m (some origin) ∷ []

module _ (sender : SteamId) (key body : Bytes) (origin : ConnectionId) (now : Time)
    (w : World) where
  deliver-stored :
      (o : Option Conversation) (m : Message)
      → let r = deliver sender key body origin now o w in
        r.1 ≡ stored m
        → (c : Conversation) × (o ≡ some c)
          × MayWrite sender c w.db
          × IsSent sender key body origin now c w r.0 m
  unfolding deliver publish
  deliver-stored none m h = cc
  deliver-stored (some c) m h = elim (Option-cases (earlier c.id sender key w.db)) [
    | inl absent ↦ (
      c,
      refl,
      record { member = ground (arith, h); writable = ground (arith, h) },
      record {
        is_new = absent;
        row = ground (arith, h, store-fresh sender key body origin now c w absent);
        kept = ground (
          arith,
          h,
          store-fresh sender key body origin now c w absent,
          append-fresh c.id sender key body now w.db absent,
        );
        told = ground (arith, h, store-fresh sender key body origin now c w absent);
      },
    )
    | inr (r, found) ↦ ground (arith, h, store-repeated sender key body origin now c w r found)
  ]

  deliver-rejected :
      (o : Option Conversation) (code : RejectCode)
      → let r = deliver sender key body origin now o w in
        r.1 ≡ rejected code → (code ≢ internal) × (r.0 ≡ w)
  unfolding deliver
  deliver-rejected none code h = (λ e. cc, refl)
  deliver-rejected (some c) code h = elim (Option-cases (earlier c.id sender key w.db)) [
    | inl absent ↦ (
      λ e. ground (arith, e, h, store-fresh sender key body origin now c w absent),
      ground (arith, h, store-fresh sender key body origin now c w absent),
    )
    | inr (r, found) ↦ (
      λ e. ground (arith, e, h, store-repeated sender key body origin now c w r found),
      ground (arith, h, store-repeated sender key body origin now c w r found),
    )
  ]

module _ (sender : SteamId) (id : ConversationId) (key body : Bytes) (origin : ConnectionId)
    (now now_read : Time) (s : ChatState) where
  pub submit-passes :
      PassesChecks sender key body now s
      → let (w', result) =
          deliver sender key body origin now (Conversations.get id now_read s.world.db) s.world in
        submit sender id key body origin now now_read s
        ≡ (record { world = w'; buckets = (take_token sender now s.buckets).1 }, result)
  unfolding submit
  submit-passes p = ground (arith, p.valid, p.short, p.granted)

  refused : Bool
  refused =
      is_invalid key body
      || ltb max_body_bytes (length body)
      || not (take_token sender now s.buckets).0

  submit-refused :
      refused ≡ true
      → let r = submit sender id key body origin now now_read s in
        (r.0.world ≡ s.world)
        × ((m : Message) → r.1 ≢ stored m)
        × ((m : Message) → r.1 ≢ duplicate m)
        × (r.1 ≢ rejected internal)
  unfolding submit refused
  submit-refused h = ground arith

  unrefused : refused ≡ false → PassesChecks sender key body now s
  unfolding refused
  unrefused h = record {
    valid = ground (arith, h);
    short = ground (arith, h);
    granted = ground (arith, h);
  }

  -- A message that is answered as stored passed every check: the sender is a member of the
  -- conversation and may write to it. The message is new, it is stored under the next id with the
  -- text and the time of the call, nothing else of the database changes, and one event tells every
  -- member except the sending connection.
  pub submit-stored :
      (m : Message)
      → let r = submit sender id key body origin now now_read s in
        r.1 ≡ stored m
        → PassesChecks sender key body now s
          × ((c : Conversation) × (Conversations.get id now_read s.world.db ≡ some c)
              × MayWrite sender c s.world.db
              × IsSent sender key body origin now c s.world r.0.world m)
  submit-stored m h = elim (Bool-cases refused) [
    | inl bad ↦ elim ((submit-refused bad).1 m h) [ ]
    | inr good ↦
        let p = unrefused good in
        (
          p,
          rw (submit-passes p) (
              deliver-stored sender key body origin now s.world
                (Conversations.get id now_read s.world.db) m
                (sym (ap (λ x. x.1) (submit-passes p)) ∙ h)),
        )
  ]

  -- A message that is rejected changes neither the database nor what is published, and it is never
  -- rejected as an internal error.
  pub submit-rejected :
      (code : RejectCode)
      → let r = submit sender id key body origin now now_read s in
        r.1 ≡ rejected code → (code ≢ internal) × (r.0.world ≡ s.world)
  submit-rejected code h = elim (Bool-cases refused) [
    | inl bad ↦ ((λ e. (submit-refused bad).3 (h ∙ ap rejected e)), (submit-refused bad).0)
    | inr good ↦
        let p = unrefused good in
        rw (submit-passes p) (
          deliver-rejected sender key body origin now s.world
            (Conversations.get id now_read s.world.db) code
            (sym (ap (λ x. x.1) (submit-passes p)) ∙ h))
  ]
