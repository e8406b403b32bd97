-- ===== src/Service/Conversations.antt =====
-- The conversation service (src/service/ConversationService.cpp). The readings of the clock are
-- arguments, in the order in which they are taken; no result is an exception of the repository.
pub mod Invitees
pub mod Permission
use picasso_backend.Base.{
  ℕ, Bool, true, false, not, ◌&&◌, ◌||◌, List, [], ◌∷◌, ◌++◌, Option, none, some, Bytes, ◌==◌,
  nat_eq, length, is_empty, ltb, leb, if◌then◌else◌,
}
use picasso_backend.Base.Table.{exists, order_asc}
use picasso_backend.Domain.Ids.{SteamId, ConversationId, Time}
use picasso_backend.Domain.Contact.{PaletteInvite, max_palette_name_bytes, max_invitees_per_create}
use picasso_backend.Domain.Conversation.{Conversation, is_dm}
use picasso_backend.Domain.Events.{palette_invite_changed, conversation_added, conversation_updated}
use picasso_backend.Storage.Rows.{Database}
use picasso_backend.Storage.ContactRepository.{can_communicate}
use picasso_backend.Storage.ConversationRepository as Repository
use picasso_backend.Storage.ConversationRepository.{DmResult, name_of, cooldown_active}
use picasso_backend.Service.World.{World, publish}

abbrev pub is_space : ℕ → Bool
is_space c = c == 32 || leb 9 c && leb c 13

abbrev pub trim_start : Bytes → Bytes
trim_start [] = []
trim_start (c ∷ cs) = let rest = trim_start cs in if is_space c then rest else c ∷ cs

abbrev pub trim_stop : Bytes → Bytes
trim_stop [] = []
trim_stop (c ∷ cs) = let rest = trim_stop cs in if is_space c && is_empty rest then [] else c ∷ rest

unfoldable pub trimmed : Bytes → Bytes
trimmed text = trim_stop (trim_start text)

pub data CreateOutcome : Type 0 where
  created existing not_allowed self invalid_name too_many_invitees : CreateOutcome

pub record CreateResult : Type 0 where
  pub outcome : CreateOutcome
  pub conversation : Option Conversation

abbrev pub refused : CreateOutcome → CreateResult
refused o = record { outcome = o; conversation = none }

unfoldable pub announce_dm : Bool → SteamId → SteamId → Option Conversation → World → World
announce_dm true me peer (some c) w =
    publish (conversation_added me c) (publish (conversation_added peer c) w)
announce_dm _ me peer _ w = w

unfoldable pub finish_dm :
    SteamId → SteamId → Time → World → Database × Option DmResult → World × Option CreateResult
unfolding announce_dm
finish_dm me peer now_read w (db, none) = (record w { db = db }, none)
finish_dm me peer now_read w (db, some dm) =
    let c = Repository.get dm.id now_read db in
    (
      announce_dm dm.created me peer c (record w { db = db }),
      some (record { outcome = if dm.created then created else existing; conversation = c }),
    )

unfoldable pub create_dm : SteamId → SteamId → Time → Time → World → World × Option CreateResult
unfolding finish_dm
create_dm me peer now now_read w =
    if me == peer
    then (w, some (refused CreateOutcome.self))
    else if not (can_communicate me peer w.db)
    then (w, some (refused CreateOutcome.not_allowed))
    else finish_dm me peer now_read w (Repository.get_or_create_dm me peer now w.db)

-- The invitees without the creator and without repetitions, after those in `unique`.
unfoldable pub unique_invitees : SteamId → List SteamId → List SteamId → List SteamId
unique_invitees me unique [] = unique
unique_invitees me unique (i ∷ is) =
    unique_invitees me (if i == me || exists (λ u. u == i) unique then unique else unique ++ i ∷ [])
      is

abbrev pub all_allowed : SteamId → List SteamId → Database → Bool
all_allowed me [] db = true
all_allowed me (i ∷ is) db = can_communicate me i db && all_allowed me is db

unfoldable pub announce_invite : Repository.InviteOutcome → SteamId → PaletteInvite → World → World
announce_invite Repository.created to invite w = publish (palette_invite_changed to invite true) w
announce_invite _ to invite w = w

abbrev pub invite_of : ConversationId → Bytes → SteamId → Time → PaletteInvite
invite_of id name inviter now = record {
  conversation_id = id;
  name = name;
  inviter = inviter;
  created_at_epoch_ms = now;
}

unfoldable pub invite_each : ConversationId → Bytes → SteamId → Time → List SteamId → World → World
unfolding announce_invite
invite_each id name me now [] w = w
invite_each id name me now (i ∷ is) w =
    let (db', outcome) = Repository.invite id me i now w.db in
    invite_each id name me now is
      (announce_invite outcome i (invite_of id name me now) (record w { db = db' }))

unfoldable pub announce_palette : SteamId → Option Conversation → World → World
announce_palette me none w = w
announce_palette me (some c) w = publish (conversation_added me c) w

-- The writes of `createPalette`, after every check.
unfoldable pub write_palette :
    SteamId → Bytes → List SteamId → Time → Time → World → World × CreateResult
unfolding invite_each announce_palette
write_palette me name invitees now now_read w =
    let (id, db') = Repository.create_palette name me now w.db in
    let w' = invite_each id name me now invitees (record w { db = db' }) in
    let c = Repository.get id now_read w'.db in
    (announce_palette me c w', record { outcome = created; conversation = c })

unfoldable pub create_palette :
    SteamId → Bytes → List SteamId → Time → Time → World → World × CreateResult
unfolding trimmed unique_invitees write_palette
create_palette me name invitees now now_read w =
    let clean_name = trimmed name in
    let unique = unique_invitees me [] invitees in
    if is_empty clean_name || ltb max_palette_name_bytes (length clean_name)
    then (w, refused invalid_name)
    else if ltb max_invitees_per_create (length unique)
    then (w, refused too_many_invitees)
    else if not (all_allowed me unique w.db)
    then (w, refused CreateOutcome.not_allowed)
    else write_palette me clean_name unique now now_read w

pub data InviteOutcome : Type 0 where
  invited unchanged not_a_member not_allowed self : InviteOutcome

pub record InviteResult : Type 0 where
  pub outcome : InviteOutcome
  pub conversation : Option Conversation

abbrev pub denied : InviteOutcome → InviteResult
denied o = record { outcome = o; conversation = none }

abbrev pub is_created : Repository.InviteOutcome → Bool
is_created Repository.created = true
is_created _ = false

abbrev pub is_cooldown : Repository.InviteOutcome → Bool
is_cooldown cooldown_active = true
is_cooldown _ = false

-- During a cooldown the inviter is shown the invitee as a pending one.
abbrev pub seen_by_inviter : Repository.InviteOutcome → SteamId → Conversation → Conversation
seen_by_inviter outcome invitee c =
    if is_cooldown outcome
    then record c { invited = order_asc (λ x. x) (c.invited ++ invitee ∷ []) }
    else c

abbrev pub answer_of : Repository.InviteOutcome → InviteOutcome
answer_of outcome = if is_created outcome then invited else unchanged

unfoldable pub finish_invite :
    SteamId
    → SteamId
    → Time
    → Repository.InviteOutcome
    → Option Conversation
    → World
    → World × InviteResult
finish_invite me invitee now_told outcome none w = (w, denied (answer_of outcome))
finish_invite me invitee now_told outcome (some c) w = (
  announce_invite outcome invitee (invite_of c.id (name_of c.name) me now_told) w,
  record { outcome = answer_of outcome; conversation = some (seen_by_inviter outcome invitee c) },
)

abbrev pub is_palette : Option Conversation → Bool
is_palette none = false
is_palette (some c) = not (is_dm c.kind)

-- The clock is read for the conversation, for the invite, for the conversation again and for the
-- event.
unfoldable pub invite :
    SteamId → ConversationId → SteamId → Time → Time → Time → Time → World → World × InviteResult
unfolding finish_invite
invite me palette invitee now_read now now_reread now_told w =
    let (db', outcome) = Repository.invite palette me invitee now w.db in
    let done =
      finish_invite me invitee now_told outcome (Repository.get palette now_reread db')
        (record w { db = db' }) in
    if not (is_palette (Repository.get palette now_read w.db))
      || not (Repository.is_member palette me w.db)
    then (w, denied not_a_member)
    else if me == invitee
    then (w, denied InviteOutcome.self)
    else if not (can_communicate me invitee w.db)
    then (w, denied InviteOutcome.not_allowed)
    else done

unfoldable pub announce_join : SteamId → List SteamId → Conversation → World → World
announce_join me [] c w = w
announce_join me (m ∷ ms) c w =
    announce_join me ms c (if not (m == me) then publish (conversation_updated m c) w else w)

unfoldable pub finish_accept :
    SteamId → ConversationId → Option Conversation → World → World × Option Conversation
unfolding announce_join
finish_accept me id none w = (w, none)
finish_accept me id (some c) w =
    let w₁ = publish (palette_invite_changed me (invite_of id (name_of c.name) 0 0) false) w in
    let w₂ = publish (conversation_added me c) w₁ in (announce_join me c.members c w₂, some c)

unfoldable pub accept_invite :
    SteamId → ConversationId → Time → Time → World → World × Option Conversation
unfolding finish_accept
accept_invite me id now now_read w =
    let (accepted, db') = Repository.accept_invite id me now w.db in
    let joined = finish_accept me id (Repository.get id now_read db') (record w { db = db' }) in
    if not accepted then (w, none) else joined

unfoldable pub decline_invite : SteamId → ConversationId → Time → World → World
decline_invite me id now w =
    let (declined, db') = Repository.decline_invite id me now w.db in
    if not declined
    then w
    else publish (palette_invite_changed me (invite_of id [] 0 0) false) (record w { db = db' })
