-- ===== src/Service/Contacts.antt =====
-- The contact service (src/service/ContactService.cpp). The clock readings are arguments.
pub mod Invariant
pub mod Communication
pub mod Requests
pub mod CounterBlock
use picasso_backend.Base.{
  Bool, true, false, ◌&&◌, ◌||◌, ◌==◌, nat_eq, none, some, some_and, is_none, Option, leb,
  if◌then◌else◌,
}
use picasso_backend.Base.Int.{sub_ℕ}
use picasso_backend.Domain.Ids.{SteamId, Time}
use picasso_backend.Domain.Contact.{
  ContactLevel, ContactsSnapshot, imposter, is_imposter, younger, max_pending_requests,
  max_requests_per_day, rate_window_ms, contact_request_ttl_ms, decline_cooldown_ms,
}
use picasso_backend.Domain.Events.{contact_requested, contact_changed}
use picasso_backend.Storage.ContactRepository
use picasso_backend.Storage.ContactRepository.{RequestState}
use picasso_backend.Storage.ConversationRepository
use picasso_backend.Storage.Rows.{Database}
use picasso_backend.Service.World.{World, publish}

pub data RequestOutcome : Type 0 where
  pending accepted already_contacts self unblock_first rate_limited : RequestOutcome

pub data LevelOutcome : Type 0 where
  ok self not_a_contact : LevelOutcome

unfoldable pub publish_pair : SteamId → SteamId → World → World
publish_pair first second w =
    let w₁ =
      publish (contact_changed first second (ContactRepository.level_of first second w.db)) w in
    publish (contact_changed second first (ContactRepository.level_of second first w₁.db)) w₁

unfoldable pub store_request : SteamId → SteamId → Time → World → World
store_request me target now w =
    publish (contact_requested target me now)
      (record w { db = ContactRepository.put_request me target now w.db })

-- An earlier request that is still in force stops a new one.
unfoldable pub in_force : Time → RequestState → Bool
in_force now ours = elim ours.declined_at_epoch_ms [
  | some declined ↦ younger now declined decline_cooldown_ms
  | none ↦ younger now ours.created_at_epoch_ms contact_request_ttl_ms
]

-- A request from `me` that may have to be stored: the last part of `request`.
unfoldable pub request_own : SteamId → SteamId → Time → World → World × RequestOutcome
request_own me target now w =
    if some_and (in_force now) (ContactRepository.request_state me target w.db)
    then (w, pending)
    else (store_request me target now w, pending)

abbrev pub is_live : Time → RequestState → Bool
is_live now theirs =
    is_none theirs.declined_at_epoch_ms
    && younger now theirs.created_at_epoch_ms contact_request_ttl_ms

-- A live request the other way round is accepted: the middle part of `request`.
unfoldable pub request_mutual : SteamId → SteamId → Time → World → World × RequestOutcome
request_mutual me target now w =
    if some_and (is_live now) (ContactRepository.request_state target me w.db)
    then (let (done, db') = ContactRepository.accept target me now w.db in
        if done
        then (publish_pair me target (record w { db = db' }), accepted)
        else request_own me target now w)
    else request_own me target now w

-- A request that the limits let through.
unfoldable pub admit : SteamId → SteamId → Time → World → World × RequestOutcome
admit me target now w =
    let w₁ = record w { db = ContactRepository.ensure_user target w.db } in
    if some_and is_imposter (ContactRepository.level_of target me w₁.db)
    then (w₁, pending)
    else request_mutual me target now w₁

unfoldable pub over_limit : SteamId → Time → Time → World → Bool
over_limit me now now_counted w =
    leb max_pending_requests (ContactRepository.count_pending_from me now_counted w.db)
    || leb max_requests_per_day
        (ContactRepository.count_created_since me (sub_ℕ now rate_window_ms) w.db)

-- `now_counted` is the second reading of the clock, which the count of pending requests takes.
unfoldable pub request : SteamId → SteamId → Time → Time → World → World × RequestOutcome
request me target now now_counted w =
    if me == target
    then (w, RequestOutcome.self)
    else if some_and is_imposter (ContactRepository.level_of me target w.db)
    then (w, unblock_first)
    else if ContactRepository.can_communicate me target w.db
    then (w, already_contacts)
    else if over_limit me now now_counted w
    then (w, rate_limited)
    else admit me target now w

unfoldable pub accept : SteamId → SteamId → Time → World → World × Bool
accept me from now w =
    let (done, db') = ContactRepository.accept from me now w.db in
    if done then (publish_pair me from (record w { db = db' }), true) else (w, false)

unfoldable pub decline_or_withdraw : SteamId → SteamId → Time → World → World
decline_or_withdraw me other now w =
    let (_, db') = ContactRepository.decline other me now w.db in
    record w { db = ContactRepository.withdraw me other db' }

unfoldable pub set_level : SteamId → SteamId → ContactLevel → Time → World → World × LevelOutcome
set_level me other level now w =
    if me == other
    then (w, LevelOutcome.self)
    else if is_imposter level
    then (
      publish (contact_changed other me none) (
          publish (contact_changed me other (some imposter))
            (record w { db = ContactRepository.block me other now w.db })),
      LevelOutcome.ok,
    )
    else (let (changed, db') = ContactRepository.set_tier me other level w.db in
        if changed
        then (
          publish (contact_changed me other (some level)) (record w { db = db' }),
          LevelOutcome.ok,
        )
        else (w, not_a_contact))

-- What `remove_or_unblock` does at the level that it read.
unfoldable pub drop_level : Option ContactLevel → SteamId → SteamId → World → World
drop_level none me other w = w
drop_level (some level) me other w =
    if is_imposter level
    then (let (done, db') = ContactRepository.unblock me other w.db in
        if done then publish (contact_changed me other none) (record w { db = db' }) else w)
    else (let (done, db') = ContactRepository.remove me other w.db in
        if done
        then publish (contact_changed other me none)
            (publish (contact_changed me other none) (record w { db = db' }))
        else w)

unfoldable pub remove_or_unblock : SteamId → SteamId → World → World
remove_or_unblock me other w = drop_level (ContactRepository.level_of me other w.db) me other w

-- The invites come from the conversations, with their own reading of the clock.
unfoldable pub snapshot : SteamId → Time → Time → Database → ContactsSnapshot
snapshot me now now_invites db = record (ContactRepository.snapshot me now db) {
  palette_invites = ConversationRepository.pending_invites_of me now_invites db;
}
