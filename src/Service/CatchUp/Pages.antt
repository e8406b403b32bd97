-- ===== src/Service/CatchUp/Pages.antt =====
-- What the pages of the history and of a catch-up hold (src/service/ChatService.cpp, `sync` and
-- `history`).
use picasso_backend.Base.{
  ℕ, ◌+◌, ◌≤◌, ◌≡◌, refl, sym, ◌∙◌, ap, true, false, ◌||◌, List, [], Option, is_none, length, ltb,
  arith, Bool-cases, inl, inr,
}
use picasso_backend.Base.Int.{ℤ, pos, negsuc}
use picasso_backend.Base.Ordered.{last_of, length-last_of, last_of-all, last_of-last_of}
use picasso_backend.Domain.Ids.{SteamId, ConversationId, MessageId}
use picasso_backend.Domain.Conversation.{Conversation}
use picasso_backend.Domain.Message.{Message, max_page_size}
use picasso_backend.Storage.Rows.{Database}
use picasso_backend.Storage.ConversationRepository as Conversations
use picasso_backend.Storage.ChatRepository as Messages
use picasso_backend.Storage.MessageLog.{IsLog, shown, newest_lem, older_than_lem}
use picasso_backend.Service.CatchUp.{clamp_limit, keep_newest, or_zero, sync_one, history}

keep_newest_lem : (limit : ℕ) (rows : List Message) → keep_newest limit rows ≡ last_of limit rows
keep_newest_lem limit rows = elim (Bool-cases (ltb limit (length rows))) [
  | inl more ↦ rw more refl
  | inr few ↦ rw few (sym (last_of-all limit rows (ground (arith, few))))
]

-- One row more than the limit is read, so that it is known whether there are more.
module _ (limit : ℕ) (rows all : List Message) (h : rows ≡ last_of (limit + 1) all) where
  page_messages : keep_newest limit rows ≡ last_of limit all
  page_messages =
      keep_newest_lem limit rows
      ∙ ap (last_of limit) h
      ∙ last_of-last_of limit (limit + 1) all (omega arith)

  page_more : ltb limit (length rows) ≡ ltb limit (length all)
  page_more = rw h (ground (arith, length-last_of (limit + 1) all))

-- On a message log, a catch-up of one conversation holds the newest `limit` of the messages that
-- are after the cursor and not deleted, oldest first. It is a reset without a cursor or where
-- there are more than that, `has_more_before` says the latter, and if it is no reset it holds all
-- of them.
pub sync_one_lem :
    (me : SteamId) (cursor : Option MessageId) (limit : ℕ) (c : Conversation) (db : Database)
    → IsLog db
    → let s = sync_one me cursor limit c db in
      let all = shown c.id (λ id. ltb (or_zero cursor) id) db in
      (s.messages ≡ last_of limit all)
      × (s.reset ≡ (is_none cursor || ltb limit (length all)))
      × (s.has_more_before ≡ ltb limit (length all))
      × (s.reset ≡ false → s.messages ≡ all)
unfolding sync_one
sync_one_lem me cursor limit c db l =
    let rows = Messages.newest c.id (or_zero cursor) (limit + 1) db in
    let all = shown c.id (λ id. ltb (or_zero cursor) id) db in
    let h : rows ≡ last_of (limit + 1) all = newest_lem c.id (limit + 1) db l (or_zero cursor) in
    let more = page_more limit rows all h in
    (
      page_messages limit rows all h,
      ground (arith, more),
      ground (arith, more),
      λ r. page_messages limit rows all h ∙ last_of-all limit all (ground (arith, more)),
    )

clamp_limit_lem : (n : ℤ) → clamp_limit n ≤ max_page_size
clamp_limit_lem (pos n) = ground arith
clamp_limit_lem (negsuc n) = omega arith

-- On a message log, a page of the history is for members only. It holds the newest of the messages
-- that are before the given one and not deleted, oldest first, at most 200 of them, and
-- `has_more_before` says whether there are more of those than the page holds.
pub history_lem :
    (me : SteamId) (c : ConversationId) (before : MessageId) (requested : ℤ) (db : Database)
    → IsLog db
    → let page = history me c before requested db in
      let all = shown c (λ id. ltb id before) db in
      (page.member ≡ Conversations.is_member c me db)
      × (page.member ≡ false → page.messages ≡ [])
      × (page.member ≡ true → page.messages ≡ last_of (clamp_limit requested) all)
      × (length page.messages ≤ max_page_size)
      × (page.member ≡ true → page.has_more_before ≡ ltb (length page.messages) (length all))
unfolding history
history_lem me c before requested db l =
    let limit = clamp_limit requested in
    let rows = Messages.older_than c before (limit + 1) db in
    let all = shown c (λ id. ltb id before) db in
    let h : rows ≡ last_of (limit + 1) all = older_than_lem c (limit + 1) db l before in
    let more = page_more limit rows all h in
    let messages = page_messages limit rows all h in
    elim (Bool-cases (Conversations.is_member c me db)) [
      | inl member ↦ rw member (
        refl,
        (λ e. cc e),
        (λ e. messages),
        rw messages (omega (arith, length-last_of limit all, clamp_limit_lem requested)),
        λ e. rw messages (ground (arith, more, length-last_of limit all)),
      )
      | inr other ↦ rw other (refl, (λ e. refl), (λ e. cc e), omega arith, (λ e. cc e))
    ]
