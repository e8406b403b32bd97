-- ===== src/Service/Contacts/Invariant.antt =====
-- Every call of the contact service keeps the contact invariant, so it holds after any history of
-- calls (src/service/ContactService.cpp).
use picasso_backend.Base.{
  ◌≡◌, ◌≢◌, true, false, Bool, List, [], ◌∷◌, Option, none, some, some_and, nat_beq, arith, inl,
  inr, Bool-cases, if_both, nat_eq,
}
use picasso_backend.Domain.Ids.{SteamId, Time}
use picasso_backend.Domain.Contact.{ContactLevel, is_imposter}
use picasso_backend.Storage.ContactRepository as Repository
use picasso_backend.Storage.SocialGraph.{IsSocial}
use picasso_backend.Storage.SocialGraph.Blocking.{block-IsSocial, unblock-IsSocial}
use picasso_backend.Storage.SocialGraph.Connecting.{
  accept-IsSocial, remove-IsSocial, set_tier-IsSocial,
}
use picasso_backend.Storage.SocialGraph.Requesting.{
  Unblocked, put_request-IsSocial, decline-IsSocial, withdraw-IsSocial, ensure_user-IsSocial,
}
use picasso_backend.Storage.LevelViews.{level_of-ensure_user}
use picasso_backend.Service.World.{World, publish}
use picasso_backend.Service.Contacts.{
  RequestOutcome, publish_pair, store_request, request_own, request_mutual, admit, request,
  over_limit, already_contacts, rate_limited, accept, decline_or_withdraw, set_level,
  remove_or_unblock, drop_level, LevelOutcome,
}

abbrev pub Social : World → Type 0
Social w = IsSocial w.db

publish_pair-Social : (a b : SteamId) (w : World) → Social w → Social (publish_pair a b w)
unfolding publish_pair publish
publish_pair-Social a b w s = s

module _ (me target : SteamId) (now : Time) (w : World) (s : Social w) where
  store_request-Social :
      me ≢ target → Unblocked me target w.db → Social (store_request me target now w)
  unfolding store_request publish
  store_request-Social d u = put_request-IsSocial me target now w.db s d u

  request_own-Social :
      me ≢ target → Unblocked me target w.db → Social (request_own me target now w).0
  unfolding request_own
  request_own-Social d u =
      if_both (λ (r : World × RequestOutcome). Social r.0) _ s (store_request-Social d u)

  request_mutual-Social :
      me ≢ target → Unblocked me target w.db → Social (request_mutual me target now w).0
  unfolding request_mutual
  request_mutual-Social d u =
      if_both (λ (r : World × RequestOutcome). Social r.0) _
        (if_both (λ (r : World × RequestOutcome). Social r.0) _
          (publish_pair-Social me target _ (accept-IsSocial target me now w.db s))
          (request_own-Social d u))
        (request_own-Social d u)

  accept-Social : (from : SteamId) → Social (accept me from now w).0
  unfolding accept
  accept-Social from =
      if_both (λ (r : World × Bool). Social r.0) _
        (publish_pair-Social me from _ (accept-IsSocial from me now w.db s)) s

  pub decline_or_withdraw-Social : Social (decline_or_withdraw me target now w)
  unfolding decline_or_withdraw
  decline_or_withdraw-Social =
      withdraw-IsSocial me target now _ (decline-IsSocial target me now w.db s)

  drop_level-Social : (level : Option ContactLevel) → Social (drop_level level me target w)
  unfolding drop_level publish
  drop_level-Social none = s
  drop_level-Social (some level) =
      if_both Social _ (if_both Social _ (unblock-IsSocial me target now w.db s) s)
        (if_both Social _ (remove-IsSocial me target now w.db s) s)

  remove_or_unblock-Social : Social (remove_or_unblock me target w)
  unfolding remove_or_unblock
  remove_or_unblock-Social = drop_level-Social (Repository.level_of me target w.db)

  pub set_level-Social : (level : ContactLevel) → Social (set_level me target level now w).0
  unfolding set_level publish
  set_level-Social level = elim (Bool-cases (nat_beq me target)) [
    | inl same ↦ rw same s
    | inr differ ↦ rw differ (
        if_both (λ (r : World × LevelOutcome). Social r.0) _
          (block-IsSocial me target now w.db s (λ e. ground (arith, e)))
          (if_both (λ (r : World × LevelOutcome). Social r.0) _
            (set_tier-IsSocial me target now w.db s level) s))
  ]

module _ (me target : SteamId) (now : Time) (w : World) (s : Social w) (d : me ≢ target) where
  -- The last part of `request`, past the limits on requests.
  admit-Social :
      some_and is_imposter (Repository.level_of me target w.db) ≡ false
      → Social (admit me target now w).0
  unfolding admit
  admit-Social u =
      let w₁ : World = record w { db = Repository.ensure_user target w.db } in
      let s₁ : Social w₁ = ensure_user-IsSocial me target now w.db s in
      elim (Bool-cases (some_and is_imposter (Repository.level_of target me w₁.db))) [
        | inl blocked ↦ rw blocked s₁
        | inr free ↦
            rw free (request_mutual-Social me target now w₁ s₁ d (rw level_of-ensure_user u, free))
      ]

  request_apart :
      (now_counted : Time)
      → nat_beq me target ≡ false
      → Social (request me target now now_counted w).0
  unfolding request
  request_apart now_counted differ =
      elim (Bool-cases (some_and is_imposter (Repository.level_of me target w.db))) [
        | inl blocked ↦ rw (differ, blocked) s
        | inr free ↦
            rw (differ, free)
              (if_both (λ (r : World × RequestOutcome). Social r.0)
                (Repository.can_communicate me target w.db) {x = (w, already_contacts)} s
                (if_both (λ (r : World × RequestOutcome). Social r.0)
                  (over_limit me now now_counted w) {x = (w, rate_limited)}
                  {y = admit me target now w} s (admit-Social free)))
      ]

request_self :
    (me target : SteamId) (now now_counted : Time) (w : World)
    → Social w
    → nat_beq me target ≡ true
    → Social (request me target now now_counted w).0
unfolding request
request_self me target now now_counted w s same = rw same s

request-Social :
    (me target : SteamId) (now now_counted : Time) (w : World)
    → Social w
    → Social (request me target now now_counted w).0
request-Social me target now now_counted w s = elim (Bool-cases (nat_beq me target)) [
  | inl same ↦ request_self me target now now_counted w s same
  | inr differ ↦ request_apart me target now w s (λ e. ground (arith, e)) now_counted differ
]

-- One call of the service by a user at a time.
pub data Call : Type 0 where
  request_call : (me target : SteamId) (now now_counted : Time) → Call
  accept_call : (me from : SteamId) (now : Time) → Call
  decline_call : (me other : SteamId) (now : Time) → Call
  set_level_call : (me other : SteamId) (level : ContactLevel) (now : Time) → Call
  remove_call : (me other : SteamId) → Call

unfoldable pub step : Call → World → World
step (request_call me target now now_counted) w = (request me target now now_counted w).0
step (accept_call me from now) w = (accept me from now w).0
step (decline_call me other now) w = decline_or_withdraw me other now w
step (set_level_call me other level now) w = (set_level me other level now w).0
step (remove_call me other) w = remove_or_unblock me other w

unfoldable pub run : List Call → World → World
unfolding step
run [] w = w
run (c ∷ cs) w = run cs (step c w)

pub step-Social : (c : Call) (w : World) → Social w → Social (step c w)
unfolding step
step-Social (request_call me target now now_counted) w s =
    request-Social me target now now_counted w s
step-Social (accept_call me from now) w s = accept-Social me from now w s from
step-Social (decline_call me other now) w s = decline_or_withdraw-Social me other now w s
step-Social (set_level_call me other level now) w s = set_level-Social me other now w s level
step-Social (remove_call me other) w s = remove_or_unblock-Social me other 0 w s

-- After any sequence of calls of the contact service on a consistent database, the tables have one
-- row for each key, nobody has a row or a request about themselves, and for every two users
-- ally-ness is mutual, and a block leaves neither a row of the other side nor a request.
pub run-Social : (cs : List Call) (w : World) → Social w → Social (run cs w)
unfolding run
run-Social [] w s = s
run-Social (c ∷ cs) w s = run-Social cs (step c w) (step-Social c w s)
