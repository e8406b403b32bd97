-- ===== src/Transport/Http/Reply.antt =====
-- What an endpoint answers or throws (src/transport/http), how a caller is identified
-- (src/transport/http/HttpSupport.hpp) and what becomes of an error
-- (src/transport/http/ErrorHandler.cpp).
use picasso_backend.Base.{
  ℕ, Bool, true, false, not, ◌&&◌, ◌++◌, Option, none, some, Bytes, codes, length, drop, nat_beq,
  if◌then◌else◌,
}
use picasso_backend.Base.Text.{starts_with}
use picasso_backend.Domain.Ids.{SteamId, Time}
use picasso_backend.Dto.Envelope.{ConversationDto}
use picasso_backend.Dto.Rest.{ErrorDto, AuthTokenDto, ContactsDto, MessagePageDto, SyncResponseDto}
use picasso_backend.Storage.Rows.{Database}
use picasso_backend.Service.Auth.{authenticate}

-- A conversation is missing where the source dereferences one that is not there.
pub data Body : Type 0 where
  no_body : Body
  contacts_body : ContactsDto → Body
  conversation_body : Option ConversationDto → Body
  page_body : MessagePageDto → Body
  sync_body : SyncResponseDto → Body
  token_body : AuthTokenDto → Body
  text_body : (content_type text : Bytes) → Body
  error_body : ErrorDto → Body

-- A thrown `HttpError` has a status and a message; any other exception has only a message.
pub data Reply : Type 0 where
  response : (status : ℕ) (body : Body) → Reply
  http_error : (status : ℕ) (message : Bytes) → Reply
  exception : (message : Bytes) → Reply

abbrev pub is_error : Reply → Bool
is_error (response status body) = false
is_error (http_error status message) = true
is_error (exception message) = true

unfoldable pub json_error_prefix : Bytes
json_error_prefix = codes "json-error: "

unfoldable pub json_error : Bytes → Bytes
unfolding json_error_prefix
json_error message = json_error_prefix ++ message

unfoldable pub not_implemented_prefix : Bytes
not_implemented_prefix = codes "not-implemented: "

module _ (sha256 : Bytes → Bytes) where
  -- Nobody, without the header.
  unfoldable pub identity : Option Bytes → Time → Database → Option SteamId
  unfolding authenticate
  identity none now db = none
  identity (some header) now db = authenticate sha256 header now db

-- The start of every endpoint but those of the login.
unfoldable pub require_identity {ℓ} :
    {A : Type ℓ} → Option SteamId → (SteamId → A × Reply) → A → A × Reply
require_identity none endpoint a = (a, http_error 401 (codes "missing or invalid session token"))
require_identity (some me) endpoint a = endpoint me

-- A prefix is taken off the text.
abbrev pub without : Bytes → Bytes → Bytes
without prefix text = if starts_with prefix text then drop (length prefix) text else text

-- The descriptions of the statuses and the page are of oat++ and of a file.
module _ (description : ℕ → Bytes) (not_found_page : Bytes) where
  unfoldable pub handle_error : ℕ → Bytes → ℕ × Body
  unfolding not_implemented_prefix json_error_prefix
  handle_error status message =
      let effective = if starts_with not_implemented_prefix message then 501 else status in
      let text = without not_implemented_prefix message in
      let wants_json = starts_with json_error_prefix text in
      if nat_beq effective 404 && not wants_json
      then (404, text_body (codes "text/html; charset=utf-8") not_found_page)
      else (
        effective,
        error_body (record {
          status = effective;
          code = description effective;
          message = without json_error_prefix text;
        }),
      )
