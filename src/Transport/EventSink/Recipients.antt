-- ===== src/Transport/EventSink/Recipients.antt =====
-- To whom an event is sent (src/transport/ws/WsEventSink.cpp, src/transport/ws/ConnectionHub.cpp).
use mathlib.Core.List.{append-nil}
use picasso_backend.Base.{
  ℕ, ◌≡◌, refl, sym, ◌∙◌, Bool, false, List, [], ◌∷◌, none, some, Bytes, nat_beq, arith,
}
use picasso_backend.Base.Table.{delete}
use picasso_backend.Domain.Ids.{SteamId}
use picasso_backend.Domain.Events.{
  Event, contact_requested, contact_changed, palette_invite_changed, conversation_added,
  conversation_updated, chat_delivered, message_removed,
}
use picasso_backend.Transport.EnvelopeCodec.{ObjectMapper, encode}
use picasso_backend.Transport.EventSink.{publish, transmit, envelope_for}
use picasso_backend.Transport.Hub.{Hub, Sent, send_to, send_to_all}
use picasso_backend.Transport.Hub.Delivery.{send_to_all_except_lem}

-- The users that an event is about to tell.
abbrev pub recipients : Event → List SteamId
recipients (contact_requested to from created_at) = to ∷ []
recipients (contact_changed to other level) = to ∷ []
recipients (palette_invite_changed to invite pending) = to ∷ []
recipients (conversation_added to conversation) = to ∷ []
recipients (conversation_updated to conversation) = to ∷ []
recipients (chat_delivered to message except) = to
recipients (message_removed to conversation_id message_id) = to

-- Whether the event leaves a connection out.
abbrev pub leaves_out : Event → Sent → Bool
leaves_out (chat_delivered to message (some except)) x = nat_beq x.to.connection_id except
leaves_out _ x = false

delete-none {ℓ} : {A : Type ℓ} (xs : List A) → delete (λ x. false) xs ≡ xs
unfolding delete
delete-none [] = refl
delete-none (x ∷ xs) = ground (arith, delete-none xs)

module _ (mapper : ObjectMapper) (alive : ℕ → Bool) where
  send_to-one :
      (id : SteamId) (frame : Bytes) (hub : Hub)
      → send_to alive id frame hub ≡ delete (λ x. false) (send_to_all alive (id ∷ []) frame hub)
  unfolding send_to_all
  send_to-one id frame hub = sym (
      delete-none (send_to_all alive (id ∷ []) frame hub) ∙ append-nil (send_to alive id frame hub))

  -- Every event is sent as one frame, the text of its envelope, to each live connection of each
  -- user that it addresses, in their order, except the connection that a chat message came from.
  pub publish-recipients :
      (event : Event) (hub : Hub)
      → publish mapper alive event hub
        ≡ delete
            (leaves_out event)
            (send_to_all alive (recipients event) (encode mapper (envelope_for event)) hub)
  unfolding publish transmit
  publish-recipients (contact_requested to from created_at) hub = send_to-one to _ hub
  publish-recipients (contact_changed to other level) hub = send_to-one to _ hub
  publish-recipients (palette_invite_changed to invite pending) hub = send_to-one to _ hub
  publish-recipients (conversation_added to conversation) hub = send_to-one to _ hub
  publish-recipients (conversation_updated to conversation) hub = send_to-one to _ hub
  publish-recipients (chat_delivered to message none) hub =
      sym (delete-none (send_to_all alive to _ hub))
  publish-recipients (chat_delivered to message (some except)) hub =
      send_to_all_except_lem alive to _ except hub
  publish-recipients (message_removed to conversation_id message_id) hub =
      sym (delete-none (send_to_all alive to _ hub))
