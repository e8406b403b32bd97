-- ===== src/Dto/Rest.antt =====
-- The bodies of requests and responses (src/dto/Rest.hpp). A field of oat++ may be null, so each
-- is an `Option`; a list in a response is always there.
use picasso_backend.Base.{ℕ, Bool, List, Option, Bytes}
use picasso_backend.Base.Int.{ℤ}
use picasso_backend.Domain.Ids.{Time}
use picasso_backend.Dto.Envelope.{
  ContactRequestDto, PaletteInviteDto, MessageDto, ConversationDto, MessageDeletedDto,
}

pub record ErrorDto : Type 0 where
  pub status : ℕ
  pub code : Bytes
  pub message : Bytes

pub record AuthTokenDto : Type 0 where
  pub token : Option Bytes
  pub steam_id : Option Bytes
  pub expires_at : Option Time

pub record CreateConversationDto : Type 0 where
  pub kind : Option Bytes
  pub peer_steam_id : Option Bytes
  pub name : Option Bytes
  pub invite_steam_ids : Option (List (Option Bytes))

pub record SteamIdBodyDto : Type 0 where
  pub steam_id : Option Bytes

pub record ContactLevelBodyDto : Type 0 where
  pub level : Option Bytes

pub record ContactDto : Type 0 where
  pub steam_id : Option Bytes
  pub level : Option Bytes
  pub since : Option Time

pub record ContactsDto : Type 0 where
  pub contacts : List ContactDto
  pub incoming : List ContactRequestDto
  pub outgoing : List ContactRequestDto
  pub palette_invites : List PaletteInviteDto

pub record MessagePageDto : Type 0 where
  pub messages : List MessageDto
  pub has_more_before : Option Bool

pub record SyncCursorDto : Type 0 where
  pub conversation_id : Option Bytes
  pub after : Option Bytes

pub record SyncRequestDto : Type 0 where
  pub cursors : Option (List (Option SyncCursorDto))
  pub deleted_since : Option Bytes
  pub limit : Option ℤ

pub record SyncConversationDto : Type 0 where
  pub conversation : ConversationDto
  pub mode : Bytes
  pub has_more_before : Bool
  pub messages : List MessageDto

pub record SyncResponseDto : Type 0 where
  pub server_time : Bytes
  pub deleted_cursor : Bytes
  pub conversations : List SyncConversationDto
  pub deleted : List MessageDeletedDto
