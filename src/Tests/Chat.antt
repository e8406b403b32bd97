-- ===== src/Tests/Chat.antt =====
-- The chat service and the conversations on small databases (src/service/ChatService.cpp,
-- src/storage/PgConversationRepository.cpp).
use picasso_backend.Base.{
  ◌+◌, ◌*◌, ◌^◌, ◌≤◌, ◌≡◌, refl, true, false, [], ◌∷◌, none, some, Bytes, arith, bytes_beq, pair_eq,
  ltb,
}
use picasso_backend.Base.Int.{pos}
use picasso_backend.Base.Ordered.{last_of}
use picasso_backend.Base.Table.{
  select, delete, update, exists, find_by, insert_or_ignore, upsert, order_desc, insert_desc,
  order_asc, insert_asc, distinct,
}
use picasso_backend.Domain.Contact.{younger}
use picasso_backend.Domain.Conversation.{Conversation, palette}
use picasso_backend.Domain.Message.{Message}
use picasso_backend.Storage.Rows.{Database}
use picasso_backend.Storage.ConversationQueries as Queries
use picasso_backend.Storage.ChatQueries as MessageQueries
use picasso_backend.Storage.ChatRepository as Messages
use picasso_backend.Storage.ConversationRepository as Conversations
use picasso_backend.Storage.ConversationRepository.{
  get_or_create_dm, invite, accept_invite, decline_invite, is_member, cooldown_active, DmResult,
}
use picasso_backend.Storage.DirectMessages.{with_id_given, get_or_create_dm_lem, wide_ids_refused}
use picasso_backend.Storage.MessageLog.{IsLog, shown}
use picasso_backend.Service.World.{publish}
use picasso_backend.Service.Chat.Rate.{
  token, burst, refill, spend, find_bucket, put_bucket, bucket_at, take_token,
}
use picasso_backend.Service.Chat.RateLimit.{granted, granted_bound}
use picasso_backend.Service.Chat.Log.{Call, submit_call, step, run, run-IsLog}
use picasso_backend.Service.Chat.Submitting.{submit-stored}
use picasso_backend.Service.Chat.Resending.{submit_again}
use picasso_backend.Service.Chat.Removing.{remove_lem}
use picasso_backend.Service.Chat.{
  ChatState, duplicate, find_peer, is_writable, announce, store, deliver, submit, remove,
}
use picasso_backend.Service.CatchUp.{find_cursor, sync_one, history}
use picasso_backend.Service.CatchUp.Pages.{sync_one_lem, history_lem}
use picasso_backend.Service.Conversations as Service
use picasso_backend.Service.Conversations.{
  CreateOutcome, refused, create_palette, create_dm, trimmed, unique_invitees, write_palette,
  finish_dm, invite_each,
}
use picasso_backend.Service.Conversations.Permission.{create_palette_atomic}
use picasso_backend.Storage.ContactQueries.{select_can_communicate}
use picasso_backend.Storage.ContactRepository.{can_communicate}
use picasso_backend.Base.Table.{count}

unfoldable pub program : Unit {0}
unfolding count select_can_communicate can_communicate create_palette create_dm trimmed
    unique_invitees write_palette finish_dm invite_each Service.invite Service.finish_invite select
    delete update exists find_by insert_or_ignore upsert order_desc insert_desc order_asc insert_asc
    distinct bytes_beq younger Queries.is_member Queries.select_members
    Queries.select_conversations_of Queries.select_dm_between Queries.insert_conversation_row
    Queries.insert_chat_row Queries.insert_palette_row Queries.insert_member_row
    Queries.select_conversation Queries.select_invite_state Queries.upsert_invite
    Queries.delete_pending_invite Queries.mark_invite_declined Queries.select_pending_invitees_of
    MessageQueries.insert_message MessageQueries.select_message_by_client_id
    MessageQueries.select_newest_messages MessageQueries.select_older_messages
    MessageQueries.mark_message_deleted MessageQueries.select_deleted_message_of_sender
    Messages.ascending Messages.existing Messages.append Messages.newest Messages.older_than
    Messages.soft_delete Conversations.is_member Conversations.members Conversations.find_dm
    Conversations.insert_dm Conversations.find_winner Conversations.create_dm get_or_create_dm
    Conversations.create_palette Conversations.invited_to Conversations.to_conversation
    Conversations.get Conversations.store_invite Conversations.held_back Conversations.held invite
    accept_invite decline_invite publish refill spend find_bucket put_bucket bucket_at take_token
    granted step run find_peer is_writable announce store deliver submit remove find_cursor sync_one
    history
program = tt

abbrev empty : Database
empty = record {
  users = 7 ∷ 8 ∷ [];
  sessions = [];
  conversations = [];
  chat = [];
  palette = [];
  members = [];
  message_data = [];
  contacts = [];
  contact_requests = [];
  palette_invites = [];
  next_conversation_id = 1;
  next_message_id = 1;
}

-- User 7 is the only member of the palette 1.
abbrev pub room : Database
room = (Conversations.create_palette (80 ∷ []) 7 0 empty).1

abbrev pub starting : ChatState
starting = record { world = record { db = room; published = [] }; buckets = [] }

abbrev pub key : Bytes
key = 107 ∷ []

abbrev pub hello : Bytes
hello = 104 ∷ 105 ∷ []

abbrev sending : Call
sending = submit_call 7 1 key hello 5 100 100

abbrev after : ChatState
after = run (sending ∷ []) starting

abbrev pub first_message : Message
first_message = record {
  id = 1;
  conversation_id = 1;
  sender_steam_id = 7;
  client_message_id = key;
  text_message = hello;
  created_at_epoch_ms = 100;
}

abbrev the_room : Conversation
the_room = record {
  id = 1;
  kind = palette;
  name = some (80 ∷ []);
  members = 7 ∷ [];
  invited = [];
  created_at_epoch_ms = 0;
}

starting-IsLog : IsLog starting.world.db
unfolding program
starting-IsLog = record { in_order = tt; all_below = tt; keyed = tt }

after-IsLog : IsLog after.world.db
after-IsLog = run-IsLog (sending ∷ []) starting starting-IsLog

granted_bound_example : token * granted 7 ((7, 0) ∷ (8, 1) ∷ (7, 5) ∷ []) [] ≤ burst + 5
granted_bound_example =
    granted_bound 7 ((7, 0) ∷ (8, 1) ∷ (7, 5) ∷ []) 0
      (omega arith, (omega arith, (omega arith, tt)))

submit-stored_example : (take_token 7 100 []).0 ≡ true
unfolding program
submit-stored_example =
    (submit-stored 7 1 key hello 5 100 100 starting first_message refl).0.granted

submit_again_example : (submit 7 1 key (104 ∷ []) 6 300 300 after).1 ≡ duplicate first_message
unfolding program
submit_again_example =
    (submit_again 7 1 key hello (104 ∷ []) 5 6 100 100 300 300 starting first_message refl
      (record { valid = refl; short = refl; granted = refl })).0

remove_lem_example : shown 1 (λ id. true) (remove 7 1 1 200 after.world).0.db ≡ []
unfolding program
remove_lem_example = (remove_lem 7 1 1 200 after.world after-IsLog).0 refl 1 (λ id. true)

sync_one_lem_example :
    (sync_one 7 none 100 the_room after.world.db).messages
    ≡ last_of 100 (shown 1 (λ id. ltb 0 id) after.world.db)
sync_one_lem_example = (sync_one_lem 7 none 100 the_room after.world.db after-IsLog).0

history_lem_example : (history 8 1 50 (pos 10) after.world.db).member ≡ false
unfolding program
history_lem_example = (history_lem 8 1 50 (pos 10) after.world.db after-IsLog).0

get_or_create_dm_lem_example :
    (r : DmResult) × (db : Database) × (get_or_create_dm 8 7 100 room ≡ (db, some r))
get_or_create_dm_lem_example =
    let (r, db, found, _, _) =
      get_or_create_dm_lem 8 7 100 room (λ e. ground (arith, e)) (omega arith) (omega arith) in
    (r, db, found)

wide_ids_refused_example : get_or_create_dm 7 (2 ^ 63) 100 room ≡ (with_id_given room, none)
unfolding program
wide_ids_refused_example =
    wide_ids_refused 7 (2 ^ 63) 100 room refl (omega arith) (omega arith) (omega arith)

-- User 8 is invited.
abbrev inviting : Database
inviting = (invite 1 7 8 100 room).0

create_palette_atomic_example :
    (create_palette 7 (80 ∷ []) (8 ∷ []) 100 100 starting.world).0 ≡ starting.world
unfolding program
create_palette_atomic_example =
    (create_palette_atomic 7 (80 ∷ []) (8 ∷ []) 100 100 starting.world).2 (λ e. ground (arith, e))
