-- ===== src/Domain/Contact.antt =====
-- The contact policy, the levels and their wire names (src/domain/Contact.hpp).
use picasso_backend.Base.{
  ℕ, ◌*◌, Bool, true, false, Option, none, some, List, ◌==◌, Bytes, bytes_eq, codes, if◌then◌else◌,
}
use picasso_backend.Base.Int.{pos, sub_ℕ, ltb_ℤ}
use picasso_backend.Domain.Ids.{SteamId, ConversationId, Time}

abbrev pub contact_request_ttl_ms : ℕ
contact_request_ttl_ms = 30 * 24 * 60 * 60 * 1000

abbrev pub palette_invite_ttl_ms : ℕ
palette_invite_ttl_ms = contact_request_ttl_ms

abbrev pub decline_cooldown_ms : ℕ
decline_cooldown_ms = 7 * 24 * 60 * 60 * 1000

abbrev pub rate_window_ms : ℕ
rate_window_ms = 24 * 60 * 60 * 1000

abbrev pub max_requests_per_day : ℕ
max_requests_per_day = 20

abbrev pub max_pending_requests : ℕ
max_pending_requests = 50

abbrev pub max_palette_name_bytes : ℕ
max_palette_name_bytes = 64

abbrev pub max_invitees_per_create : ℕ
max_invitees_per_create = 50

pub data ContactLevel : Type 0 where
  imposter ally friend : ContactLevel

unfoldable pub to_wire_string : ContactLevel → Bytes
to_wire_string imposter = codes "imposter"
to_wire_string ally = codes "ally"
to_wire_string friend = codes "friend"

unfoldable pub parse_contact_level : Bytes → Option ContactLevel
parse_contact_level wire =
    if wire == codes "imposter"
    then some imposter
    else if wire == codes "ally"
    then some ally
    else if wire == codes "friend"
    then some friend
    else none

abbrev pub allows_communication : ContactLevel → Bool
allows_communication imposter = false
allows_communication ally = true
allows_communication friend = true

abbrev pub is_imposter : ContactLevel → Bool
is_imposter imposter = true
is_imposter ally = false
is_imposter friend = false

pub record Contact : Type 0 where
  pub other : SteamId
  pub level : ContactLevel
  pub since_epoch_ms : Time

pub record ContactRequest : Type 0 where
  pub other : SteamId
  pub created_at_epoch_ms : Time

pub record PaletteInvite : Type 0 where
  pub conversation_id : ConversationId
  pub name : Bytes
  pub inviter : SteamId
  pub created_at_epoch_ms : Time

pub record ContactsSnapshot : Type 0 where
  pub contacts : List Contact
  pub incoming : List ContactRequest
  pub outgoing : List ContactRequest
  pub palette_invites : List PaletteInvite

-- `now - since < span` on signed integers.
unfoldable pub younger : Time → Time → ℕ → Bool
younger now since span = ltb_ℤ (sub_ℕ now since) (pos span)
