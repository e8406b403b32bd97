-- ===== src/Tests/Contacts.antt =====
-- The contact service on small databases (src/service/ContactService.cpp).
use picasso_backend.Base.{◌≡◌, refl, true, [], ◌∷◌, none, arith}
use picasso_backend.Base.Table.{
  select, delete, update, exists, count, find_by, insert_or_ignore, upsert,
}
use picasso_backend.Domain.Ids.{SteamId}
use picasso_backend.Domain.Contact.{imposter, younger}
use picasso_backend.Storage.ContactQueries as Queries
use picasso_backend.Storage.ContactRepository as Repository
use picasso_backend.Storage.ContactRepository.{level_of, can_communicate, request_state}
use picasso_backend.Service.World.{World, publish}
use picasso_backend.Service.Contacts.{
  pending, accepted, publish_pair, store_request, in_force, request_own, request_mutual, admit,
  over_limit, request, accept, decline_or_withdraw, set_level, drop_level, remove_or_unblock,
}
use picasso_backend.Service.Contacts.Invariant.{
  Social, request_call, accept_call, set_level_call, remove_call, step, run, run-Social,
}
use picasso_backend.Service.Contacts.Communication.{
  accept-connects, set_level-blocks, blocked_request_silent,
}
use picasso_backend.Service.Contacts.Requests.{
  mutual_request_connects, one_sided_request, declined_request_held,
}
use picasso_backend.Service.Contacts.CounterBlock.{counter_block_erases}

unfoldable pub program : Unit {0}
unfolding select delete update exists count find_by insert_or_ignore upsert younger publish
    publish_pair store_request in_force request_own request_mutual admit over_limit request accept
    decline_or_withdraw set_level drop_level remove_or_unblock step run Queries.create_user
    Queries.select_contact_level Queries.select_can_communicate Queries.select_request_state
    Queries.count_pending_requests_from Queries.count_requests_created_since Queries.upsert_request
    Queries.delete_pending_request Queries.mark_request_declined Queries.delete_request
    Queries.delete_requests_between Queries.insert_ally_if_absent Queries.upsert_imposter
    Queries.delete_contact_row Queries.delete_connected_rows Queries.delete_imposter_row
    Queries.update_tier Queries.delete_invites_between Repository.ensure_user Repository.level_of
    Repository.can_communicate Repository.request_state Repository.count_pending_from
    Repository.count_created_since Repository.put_request Repository.accept Repository.decline
    Repository.withdraw Repository.remove Repository.block Repository.unblock Repository.set_tier
program = tt

abbrev alice : SteamId
alice = 1

abbrev bob : SteamId
bob = 2

abbrev empty : World
empty = record {
  db = record {
    users = alice ∷ [];
    sessions = [];
    conversations = [];
    chat = [];
    palette = [];
    members = [];
    message_data = [];
    contacts = [];
    contact_requests = [];
    palette_invites = [];
    next_conversation_id = 1;
    next_message_id = 1;
  };
  published = [];
}

empty-Social : Social empty
unfolding program
empty-Social = record {
  keyed_contacts = tt;
  keyed_requests = tt;
  no_self = λ a. refl;
  no_self_request = λ a. refl;
  consistent = λ a b. record {
    reciprocal = refl;
    one_sided = λ h. refl;
    none_sent = λ h. refl;
    none_received = λ h. refl;
  };
}

abbrev asked : World
asked = run (request_call alice bob 10 10 ∷ []) empty

asked-Social : Social asked
asked-Social = run-Social (request_call alice bob 10 10 ∷ []) empty empty-Social

abbrev pub allies : World
allies = run (request_call alice bob 10 10 ∷ accept_call bob alice 20 ∷ []) empty

pub allies-Social : Social allies
allies-Social =
    run-Social (request_call alice bob 10 10 ∷ accept_call bob alice 20 ∷ []) empty empty-Social

-- Bob has blocked Alice.
abbrev blocked : World
blocked = run (set_level_call bob alice imposter 30 ∷ []) empty

blocked-Social : Social blocked
blocked-Social = run-Social (set_level_call bob alice imposter 30 ∷ []) empty empty-Social

-- Two requests that cross are an agreement.
crossing : (request bob alice 15 15 asked).1 ≡ accepted
unfolding program
crossing = refl

accept-connects_example : can_communicate bob alice (accept bob alice 20 asked).0.db ≡ true
unfolding program
accept-connects_example = (accept-connects bob alice 20 asked asked-Social refl).1

set_level-blocks_example : level_of bob alice (set_level alice bob imposter 40 allies).0.db ≡ none
set_level-blocks_example =
    (set_level-blocks alice bob 40 allies allies-Social (λ e. ground (arith, e))).1

blocked_request_silent_example : (request alice bob 50 50 blocked).1 ≡ pending
unfolding program
blocked_request_silent_example =
    (blocked_request_silent alice bob 50 50 blocked blocked-Social refl refl).0

mutual_request_connects_example : (request bob alice 15 16 asked).1 ≡ accepted
unfolding program
mutual_request_connects_example =
    (mutual_request_connects bob alice 15 16 asked
      (record { differ = refl; mine = refl; theirs = refl; strangers = refl; limit = refl })
      asked-Social refl).0

one_sided_request_example : (request alice bob 15 16 asked).1 ≡ pending
unfolding program
one_sided_request_example =
    (one_sided_request alice bob 15 16 asked
      (record { differ = refl; mine = refl; theirs = refl; strangers = refl; limit = refl })
      asked-Social refl).0

declined_request_held_example :
    (request alice bob 500 500 (decline_or_withdraw bob alice 20 asked)).1 ≡ pending
unfolding program
declined_request_held_example =
    (declined_request_held bob alice 20 500 500 asked asked-Social refl
      (record { differ = refl; mine = refl; theirs = refl; strangers = refl; limit = refl })
      (omega arith) (omega arith)).0

counter_block_erases_example :
    level_of bob alice
      (run (set_level_call alice bob imposter 60 ∷ remove_call alice bob ∷ []) blocked).db
    ≡ none
unfolding program
counter_block_erases_example = (counter_block_erases alice bob 60 blocked blocked-Social refl).0
