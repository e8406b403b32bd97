-- ===== src/App/System/Messages.antt =====
-- The contact service leaves the messages alone (src/service/ContactService.cpp).
use picasso_backend.Base.{◌≡◌, refl, Option, none, some, arith}
use picasso_backend.Domain.Ids.{SteamId, Time}
use picasso_backend.Domain.Contact.{ContactLevel}
use picasso_backend.Storage.Rows.{Database}
use picasso_backend.Storage.ContactQueries as Queries
use picasso_backend.Storage.ContactRepository as Repository
use picasso_backend.Service.World.{World, publish}
use picasso_backend.Service.Contacts as Contacts
use picasso_backend.Service.Contacts.{RequestOutcome, LevelOutcome}
use picasso_backend.App.System.Keeping.{ContactsKeep}

-- The two tables of messages are the same.
abbrev pub Same : Database → Database → Type 0
Same a b = (a.message_data ≡ b.message_data) × (a.next_message_id ≡ b.next_message_id)

accept-Same :
    (from to : SteamId) (now : Time) (db : Database) → Same db (Repository.accept from to now db).1
unfolding Repository.accept Queries.delete_pending_request Queries.insert_ally_if_absent
accept-Same from to now db = ground arith

remove-Same : (a b : SteamId) (db : Database) → Same db (Repository.remove a b db).1
unfolding Repository.remove Queries.delete_connected_rows Queries.delete_requests_between
    Queries.delete_invites_between
remove-Same a b db = ground arith

request-Same :
    (me target : SteamId) (now now_counted : Time) (w : World)
    → Same w.db (Contacts.request me target now now_counted w).0.db
unfolding Contacts.request Contacts.admit Contacts.request_mutual Contacts.request_own
    Contacts.store_request Contacts.publish_pair publish Repository.put_request
    Queries.upsert_request Repository.ensure_user Queries.create_user Repository.accept
    Queries.delete_pending_request Queries.insert_ally_if_absent
request-Same me target now now_counted w = ground arith

accept_call-Same :
    (me from : SteamId) (now : Time) (w : World) → Same w.db (Contacts.accept me from now w).0.db
unfolding Contacts.accept Contacts.publish_pair publish
accept_call-Same me from now w = ground (arith, accept-Same from me now w.db)

decline-Same :
    (me other : SteamId) (now : Time) (w : World)
    → Same w.db (Contacts.decline_or_withdraw me other now w).db
unfolding Contacts.decline_or_withdraw Repository.decline Queries.mark_request_declined
    Repository.withdraw Queries.delete_request
decline-Same me other now w = ground arith

set_level-Same :
    (me other : SteamId) (level : ContactLevel) (now : Time) (w : World)
    → Same w.db (Contacts.set_level me other level now w).0.db
unfolding Contacts.set_level publish Repository.block Queries.create_user Queries.upsert_imposter
    Queries.delete_contact_row Queries.delete_requests_between Queries.delete_invites_between
    Repository.set_tier Queries.update_tier
set_level-Same me other level now w = ground arith

drop_level-Same :
    (level : Option ContactLevel) (me other : SteamId) (w : World)
    → Same w.db (Contacts.drop_level level me other w).db
unfolding Contacts.drop_level publish Repository.unblock Queries.delete_imposter_row
drop_level-Same none me other w = (refl, refl)
drop_level-Same (some level) me other w = ground (arith, remove-Same me other w.db)

module _ (P : Database → Type 0) (frame : (a b : Database) → Same a b → P a → P b) where
  -- The contact service changes no message.
  pub contacts_keep : ContactsKeep P
  unfolding Contacts.remove_or_unblock
  contacts_keep = record {
    request =
        λ me target now now_counted w. frame w.db _ (request-Same me target now now_counted w);
    accept = λ me from now w. frame w.db _ (accept_call-Same me from now w);
    decline = λ me other now w. frame w.db _ (decline-Same me other now w);
    set_level = λ me other level now w. frame w.db _ (set_level-Same me other level now w);
    remove =
        λ me other w. frame w.db _ (drop_level-Same (Repository.level_of me other w.db) me other w);
  }
