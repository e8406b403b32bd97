-- ===== src/Domain/Session.antt =====
-- Login sessions (src/domain/Session.hpp).
use picasso_backend.Base.{Option, Bytes, Bool, ◌&&◌, is_none, ltb}
use picasso_backend.Domain.Ids.{SteamId, Time}

pub record Session : Type 0 where
  pub token_hash : Bytes
  pub steam_id : SteamId
  pub created_at_epoch_ms : Time
  pub expires_at_epoch_ms : Time
  pub revoke_at_epoch_ms : Option Time

unfoldable pub is_usable_at : Session → Time → Bool
is_usable_at s now = is_none s.revoke_at_epoch_ms && ltb now s.expires_at_epoch_ms
