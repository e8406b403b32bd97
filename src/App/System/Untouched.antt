-- ===== src/App/System/Untouched.antt =====
-- The conversation service leaves the tables of contacts and of messages alone
-- (src/service/ConversationService.cpp).
mod Dms
mod Palettes
use picasso_backend.Storage.Rows.{Database}
use picasso_backend.App.System.Keeping.{ConversationsKeep, IsFrame}
use picasso_backend.App.System.Untouched.Dms.{create_dm_keeps}
use picasso_backend.App.System.Untouched.Palettes.{
  create_palette_keeps, invite_keeps, accept_invite_keeps, decline_invite_keeps,
}

module _ (P : Database → Type 0) (frame : IsFrame P) where
  -- The conversation service changes neither the contacts nor the messages.
  pub conversations-Keep : ConversationsKeep P
  conversations-Keep = record {
    create_dm = create_dm_keeps P frame;
    create_palette = create_palette_keeps P frame;
    invite = invite_keeps P frame;
    accept_invite = accept_invite_keeps P frame;
    decline_invite = decline_invite_keeps P frame;
  }
