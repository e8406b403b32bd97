-- ===== src/Domain/Ids.antt =====
-- Identifiers (src/domain/Ids.hpp). The tags that keep them apart in C++ have no run-time content.
-- A time is a count of milliseconds since the epoch (src/domain/Clock.hpp).
use picasso_backend.Base.{ℕ}

abbrev pub SteamId : Type 0
SteamId = ℕ

abbrev pub ConversationId : Type 0
ConversationId = ℕ

abbrev pub MessageId : Type 0
MessageId = ℕ

abbrev pub ConnectionId : Type 0
ConnectionId = ℕ

abbrev pub Time : Type 0
Time = ℕ
