-- ===== src/Service/CallSignal.antt =====
-- The relay of call signals (src/service/CallSignalService.cpp). The transport is an argument.
-- `invite` only throws that it is not implemented, and nothing calls it.
use picasso_backend.Base.{Bytes}
use picasso_backend.Domain.Ids.{SteamId, ConversationId}

module _ {ℓ} {A : Type ℓ} (send_to : SteamId → Bytes → A) where
  unfoldable pub relay_to_peer : SteamId → ConversationId → SteamId → Bytes → A
  relay_to_peer from conversation_id to frame = send_to to frame
