-- ===== src/Transport/Http/ContactController.antt =====
-- The endpoints on contacts (src/transport/http/ContactController.hpp). The caller is the answer
-- of `identity`, and the clock readings of the services are arguments.
use picasso_backend.Base.{List, [], ◌∷◌, Option, none, some, Bytes, codes, if◌then◌else◌}
use picasso_backend.Domain.Ids.{SteamId, Time}
use picasso_backend.Domain.Contact.{
  Contact, ContactRequest, PaletteInvite, ContactsSnapshot, ContactLevel, to_wire_string,
  parse_contact_level,
}
use picasso_backend.Dto.Envelope.{ContactRequestDto, PaletteInviteDto}
use picasso_backend.Dto.Mappers.{wire, request_to_dto, invite_to_dto}
use picasso_backend.Dto.Rest.{ContactDto, ContactsDto, SteamIdBodyDto, ContactLevelBodyDto}
use picasso_backend.Service.World.{World}
use picasso_backend.Service.Contacts as Contacts
use picasso_backend.Transport.Http.{parse_steam_id}
use picasso_backend.Transport.Http.Reply.{
  Reply, response, http_error, no_body, contacts_body, json_error, require_identity,
}

unfoldable pub contact_dtos : List Contact → List ContactDto
contact_dtos [] = []
contact_dtos (c ∷ cs) =
    record {
      steam_id = some (wire c.other);
      level = some (to_wire_string c.level);
      since = some c.since_epoch_ms;
    }
    ∷ contact_dtos cs

unfoldable pub request_dtos : List ContactRequest → List ContactRequestDto
request_dtos [] = []
request_dtos (r ∷ rs) = request_to_dto r ∷ request_dtos rs

unfoldable pub invite_dtos : List PaletteInvite → List PaletteInviteDto
invite_dtos [] = []
invite_dtos (i ∷ is) = invite_to_dto i ∷ invite_dtos is

unfoldable pub snapshot_to_dto : ContactsSnapshot → ContactsDto
unfolding contact_dtos request_dtos invite_dtos
snapshot_to_dto s = record {
  contacts = contact_dtos s.contacts;
  incoming = request_dtos s.incoming;
  outgoing = request_dtos s.outgoing;
  palette_invites = invite_dtos s.palette_invites;
}

unfoldable pub contacts : Option SteamId → Time → Time → World → World × Reply
unfolding snapshot_to_dto require_identity
contacts caller now now_invites w =
    require_identity caller
      (λ me. (
        w,
        response 200 (contacts_body (snapshot_to_dto (Contacts.snapshot me now now_invites w.db))),
      ))
      w

unfoldable pub request_reply : Contacts.RequestOutcome → Reply
request_reply Contacts.RequestOutcome.pending = response 202 no_body
request_reply Contacts.RequestOutcome.accepted = response 200 no_body
request_reply Contacts.RequestOutcome.already_contacts = response 200 no_body
request_reply Contacts.RequestOutcome.self = http_error 422 (codes "cannot request yourself")
request_reply Contacts.RequestOutcome.unblock_first = http_error 409 (codes "unblock_first")
request_reply Contacts.RequestOutcome.rate_limited =
    http_error 429 (codes "too many contact requests")

unfoldable pub send_request_to : SteamId → Option SteamId → Time → Time → World → World × Reply
unfolding request_reply
send_request_to me none now now_counted w = (w, http_error 422 (codes "invalid steamId"))
send_request_to me (some target) now now_counted w =
    let (w', outcome) = Contacts.request me target now now_counted w in (w', request_reply outcome)

unfoldable pub send_request : Option SteamId → SteamIdBodyDto → Time → Time → World → World × Reply
unfolding send_request_to require_identity
send_request caller body now now_counted w =
    require_identity caller
      (λ me. send_request_to me (parse_steam_id body.steam_id) now now_counted w) w

unfoldable pub accept_request_of : SteamId → Option SteamId → Time → World → World × Reply
unfolding json_error
accept_request_of me none now w = (w, http_error 404 (json_error (codes "no such request")))
accept_request_of me (some from) now w =
    let (w', done) = Contacts.accept me from now w in
    (
      w',
      if done then response 200 no_body else http_error 404 (json_error (codes "no such request")),
    )

unfoldable pub accept_request : Option SteamId → Option Bytes → Time → World → World × Reply
unfolding accept_request_of require_identity
accept_request caller steam_id now w =
    require_identity caller (λ me. accept_request_of me (parse_steam_id steam_id) now w) w

unfoldable pub decline_request_of : SteamId → Option SteamId → Time → World → World
decline_request_of me none now w = w
decline_request_of me (some other) now w = Contacts.decline_or_withdraw me other now w

unfoldable pub decline_request : Option SteamId → Option Bytes → Time → World → World × Reply
unfolding decline_request_of require_identity
decline_request caller steam_id now w =
    require_identity caller
      (λ me. (decline_request_of me (parse_steam_id steam_id) now w, response 204 no_body)) w

unfoldable pub level_reply : Contacts.LevelOutcome → Reply
unfolding json_error
level_reply Contacts.LevelOutcome.ok = response 204 no_body
level_reply Contacts.LevelOutcome.self = http_error 422 (codes "cannot set a level on yourself")
level_reply Contacts.LevelOutcome.not_a_contact =
    http_error 404 (json_error (codes "not a contact"))

abbrev pub level_named : Option Bytes → Option ContactLevel
level_named none = none
level_named (some name) = parse_contact_level name

unfoldable pub set_level_to :
    SteamId → Option SteamId → Option ContactLevel → Time → World → World × Reply
unfolding level_reply
set_level_to me none level now w = (w, http_error 422 (codes "invalid steamId"))
set_level_to me (some other) none now w =
    (w, http_error 422 (codes "level must be ally, friend or imposter"))
set_level_to me (some other) (some level) now w =
    let (w', outcome) = Contacts.set_level me other level now w in (w', level_reply outcome)

unfoldable pub set_level :
    Option SteamId → Option Bytes → ContactLevelBodyDto → Time → World → World × Reply
unfolding set_level_to require_identity
set_level caller steam_id body now w =
    require_identity caller
      (λ me. set_level_to me (parse_steam_id steam_id) (level_named body.level) now w) w

unfoldable pub remove_contact_of : SteamId → Option SteamId → World → World
remove_contact_of me none w = w
remove_contact_of me (some other) w = Contacts.remove_or_unblock me other w

unfoldable pub remove_contact : Option SteamId → Option Bytes → World → World × Reply
unfolding remove_contact_of require_identity
remove_contact caller steam_id w =
    require_identity caller
      (λ me. (remove_contact_of me (parse_steam_id steam_id) w, response 204 no_body)) w
