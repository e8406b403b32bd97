-- ===== src/Transport/Http.antt =====
-- The parsing of the numbers in paths and queries (src/transport/http/HttpSupport.hpp).
pub mod Decimal
pub mod Reply
pub mod ContactController
pub mod ConversationController
pub mod MessageController
pub mod AuthController
pub mod Assets
pub mod Api
use picasso_backend.Base.{
  ℕ, ◌+◌, ◌-◌, ◌*◌, ◌%◌, ◌^◌, Bool, ◌||◌, List, [], ◌∷◌, Option, none, some, Bytes, length,
  is_empty, ltb, leb, if◌then◌else◌,
}
use picasso_backend.Base.Numerals.{is_digit}
use picasso_backend.Domain.Ids.{SteamId, ConversationId}

-- The loop; the arithmetic is that of `std::uint64_t`.
unfoldable pub parse_digits : ℕ → Bytes → Option ℕ
parse_digits value [] = some value
parse_digits value (c ∷ cs) =
    let rest = parse_digits ((value * 10 % 2 ^ 64 + (c - 48)) % 2 ^ 64) cs in
    if is_digit c then rest else none

unfoldable pub parse_unsigned : Bytes → Option ℕ
unfolding parse_digits
parse_unsigned text = if is_empty text || ltb 19 (length text) then none else parse_digits 0 text

-- A text that is not given has no value.
unfoldable pub parse_steam_id : Option Bytes → Option SteamId
unfolding parse_unsigned
parse_steam_id none = none
parse_steam_id (some text) = parse_unsigned text

abbrev pub up_to_int64 : Option ℕ → Option ConversationId
up_to_int64 none = none
up_to_int64 (some value) = if ltb (2 ^ 63 - 1) value then none else some value

unfoldable pub parse_conversation_id : Option Bytes → Option ConversationId
unfolding parse_unsigned
parse_conversation_id none = none
parse_conversation_id (some text) = up_to_int64 (parse_unsigned text)
