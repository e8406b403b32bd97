-- ===== src/Service/Contacts/Requests.antt =====
-- What becomes of a contact request (src/service/ContactService.cpp).
use picasso_backend.Base.{
  ◌+◌, ◌≤◌, ◌<◌, ◌≡◌, refl, true, false, ◌++◌, [], ◌∷◌, Option, none, some, some_and, nat_beq,
  arith, if◌then◌else◌,
}
use picasso_backend.Domain.Ids.{SteamId, Time}
use picasso_backend.Domain.Contact.{is_imposter, younger, decline_cooldown_ms}
use picasso_backend.Domain.Events.{contact_requested}
use picasso_backend.Storage.Rows.{Database}
use picasso_backend.Storage.ContactRepository as Repository
use picasso_backend.Storage.ContactRepository.{
  level_of, request_state, can_communicate, RequestState,
}
use picasso_backend.Storage.SocialGraph.Requesting.{ensure_user-IsSocial, decline-IsSocial}
use picasso_backend.Storage.LevelViews.{level_of-ensure_user}
use picasso_backend.Storage.RequestViews.{
  pending_at, accept-pending, request_state-ensure_user, request_state-put_request,
  request_state-decline, request_state-withdraw,
}
use picasso_backend.Service.World.{World, publish}
use picasso_backend.Service.Contacts.Invariant.{Social, decline_or_withdraw-Social}
use picasso_backend.Service.Contacts.Communication.{accept-can_communicate}
use picasso_backend.Service.Contacts.{
  pending, accepted, publish_pair, store_request, in_force, request_own, request_mutual, admit,
  over_limit, request, is_live, decline_or_withdraw,
}

-- The service's test of a live request is the test of the query that accepts it.
is_live-pending_at : (now : Time) (s : RequestState) → is_live now s ≡ pending_at now s
unfolding younger
is_live-pending_at now s = ground arith

some_live :
    (now : Time) (o : Option RequestState) → some_and (is_live now) o ≡ some_and (pending_at now) o
some_live now none = refl
some_live now (some s) = is_live-pending_at now s

module _ (me target : SteamId) (now : Time) (w : World) (s : Social w) where
  request_mutual-live :
      some_and (pending_at now) (request_state target me w.db) ≡ true
      → request_mutual me target now w ≡ (
        publish_pair me target (record w { db = (Repository.accept target me now w.db).1 }),
        accepted,
      )
  unfolding request_mutual
  request_mutual-live live = ground (
    arith,
    live,
    some_live now (request_state target me w.db),
    accept-pending target me now w.db s.keyed_requests,
  )

  mutual_connects :
      some_and (pending_at now) (request_state target me w.db) ≡ true
      → let r = request_mutual me target now w in
        (r.1 ≡ accepted)
        × (can_communicate me target r.0.db ≡ true)
        × (can_communicate target me r.0.db ≡ true)
  unfolding publish_pair publish
  mutual_connects live = rw (request_mutual-live live) (
      ground (
        arith,
        accept-pending target me now w.db s.keyed_requests,
        accept-can_communicate target me now w.db s,
      ))

  request_mutual-idle :
      some_and (pending_at now) (request_state target me w.db) ≡ false
      → request_mutual me target now w ≡ request_own me target now w
  unfolding request_mutual
  request_mutual-idle idle = ground (arith, idle, some_live now (request_state target me w.db))

-- The request passes every guard: the users differ, neither has blocked the other, they cannot
-- communicate yet, and the sender is within the limits.
pub record MayAsk (me target : SteamId) (now now_counted : Time) (w : World) : Type 0 where
  pub differ : nat_beq me target ≡ false
  pub mine : some_and is_imposter (level_of me target w.db) ≡ false
  pub theirs : some_and is_imposter (level_of target me w.db) ≡ false
  pub strangers : can_communicate me target w.db ≡ false
  pub limit : over_limit me now now_counted w ≡ false

module _ (me target : SteamId) (now now_counted : Time) (w : World)
    (m : MayAsk me target now now_counted w) where
  ensured : World
  ensured = record w { db = Repository.ensure_user target w.db }

  request_admitted : request me target now now_counted w ≡ request_mutual me target now ensured
  unfolding request admit ensured
  request_admitted = ground (
    arith,
    m.differ,
    m.mine,
    m.theirs,
    m.strangers,
    m.limit,
    level_of-ensure_user target me target me now w.db,
  )

  ensured-Social : Social w → Social ensured
  unfolding ensured
  ensured-Social s = ensure_user-IsSocial me target now w.db s

  ensured-request_state : (a b : SteamId) → request_state a b ensured.db ≡ request_state a b w.db
  unfolding ensured
  ensured-request_state a b = request_state-ensure_user a b target me now w.db

  -- A request that passes the guards connects the two at once, on consistent tables, if the other
  -- side has a request that is neither declined nor expired.
  pub mutual_request_connects :
      Social w
      → some_and (pending_at now) (request_state target me w.db) ≡ true
      → let r = request me target now now_counted w in
        (r.1 ≡ accepted)
        × (can_communicate me target r.0.db ≡ true)
        × (can_communicate target me r.0.db ≡ true)
  mutual_request_connects s live =
      rw request_admitted
        (mutual_connects me target now ensured (ensured-Social s) (rw ensured-request_state live))

  -- On consistent tables, a request that passes the guards, where the other side has no request
  -- that is neither declined nor expired, is answered `pending`. It is stored and announced unless
  -- an own one is in force, and then nothing is stored or announced.
  pub one_sided_request :
      Social w
      → some_and (pending_at now) (request_state target me w.db) ≡ false
      → let r = request me target now now_counted w in
        let held = some_and (in_force now) (request_state me target w.db) in
        (r.1 ≡ pending)
        × (request_state me target r.0.db ≡ (
            if held
            then request_state me target w.db
            else some (record { created_at_epoch_ms = now; declined_at_epoch_ms = none })))
        × (r.0.published
            ≡ (if held then w.published else w.published ++ contact_requested target me now ∷ []))
  unfolding request_own store_request publish ensured
  one_sided_request s idle =
      rw
        (
          request_admitted,
          request_mutual-idle me target now ensured (ensured-Social s)
              (rw ensured-request_state idle),
        )
        (ground (
          arith,
          ensured-request_state me target,
          request_state-put_request me target me target now ensured.db,
        ))

abbrev decline_of : Option RequestState → Option Time
decline_of none = none
decline_of (some r) = r.declined_at_epoch_ms

module _ (me other : SteamId) (declined_at : Time) (w : World) (s : Social w) where
  declining : Database
  declining = (Repository.decline other me declined_at w.db).1

  -- The request is marked, and one the other way round is gone.
  decline_or_withdraw_states :
      some_and (pending_at declined_at) (request_state other me w.db) ≡ true
      → nat_beq other me ≡ false
      → let w' = decline_or_withdraw me other declined_at w in
        (w'.published ≡ w.published)
        × (request_state me other w'.db ≡ none)
        × (decline_of (request_state other me w'.db) ≡ some declined_at)
  unfolding decline_or_withdraw declining
  decline_or_withdraw_states live differ =
      let keyed = (decline-IsSocial other me declined_at w.db s).keyed_requests in
      ground (
        arith,
        live,
        request_state-withdraw me other me other declined_at declining keyed,
        request_state-withdraw other me me other declined_at declining keyed,
        request_state-decline other me other me declined_at w.db,
      )

in_force-declined :
    (now declined_at : Time) (o : Option RequestState)
    → decline_of o ≡ some declined_at
    → now < declined_at + decline_cooldown_ms
    → some_and (in_force now) o ≡ true
unfolding in_force younger
in_force-declined now declined_at o h until = ground arith

-- On consistent tables, after the recipient has declined a pending request, a new one of the
-- sender that passes the guards is answered `pending`, but for the length of the cooldown it
-- leaves the stored request as it is and announces nothing.
pub declined_request_held :
    (me other : SteamId) (declined_at now now_counted : Time) (w : World)
    → Social w
    → some_and (pending_at declined_at) (request_state other me w.db) ≡ true
    → let w' = decline_or_withdraw me other declined_at w in
      MayAsk other me now now_counted w'
      → declined_at ≤ now
      → now < declined_at + decline_cooldown_ms
      → let r = request other me now now_counted w' in
        (r.1 ≡ pending)
        × (r.0.published ≡ w.published)
        × (request_state other me r.0.db ≡ request_state other me w'.db)
declined_request_held me other declined_at now now_counted w s live m from until =
    let w' : World = decline_or_withdraw me other declined_at w in
    let states = decline_or_withdraw_states me other declined_at w s live m.differ in
    let s' : Social w' = decline_or_withdraw-Social me other declined_at w s in
    ground (
      arith,
      states,
      in_force-declined now declined_at (request_state other me w'.db) states.2 until,
      one_sided_request other me now now_counted w' m s',
    )
