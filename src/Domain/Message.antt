-- ===== src/Domain/Message.antt =====
-- Messages and the limits on them (src/domain/Message.hpp).
use picasso_backend.Base.{ℕ, Bytes}
use picasso_backend.Domain.Ids.{SteamId, ConversationId, MessageId, Time}

abbrev pub max_body_bytes : ℕ
max_body_bytes = 4096

abbrev pub max_client_message_id_bytes : ℕ
max_client_message_id_bytes = 64

abbrev pub default_page_size : ℕ
default_page_size = 100

abbrev pub max_page_size : ℕ
max_page_size = 200

abbrev pub chat_rate_burst : ℕ
chat_rate_burst = 10

abbrev pub chat_rate_per_minute : ℕ
chat_rate_per_minute = 30

abbrev pub deleted_cursor_overlap_ms : ℕ
deleted_cursor_overlap_ms = 30_000

pub record Message : Type 0 where
  pub id : MessageId
  pub conversation_id : ConversationId
  pub sender_steam_id : SteamId
  pub client_message_id : Bytes
  pub text_message : Bytes
  pub created_at_epoch_ms : Time
