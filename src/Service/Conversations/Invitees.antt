-- ===== src/Service/Conversations/Invitees.antt =====
-- Who is invited to a new palette (src/service/ConversationService.cpp, `createPalette`).
use picasso_backend.Base.{
  ◌≡◌, ap, subst, Bool, true, false, not, ◌&&◌, ◌||◌, List, [], ◌∷◌, ◌++◌, nat_beq, arith, inl, inr,
  Bool-cases,
}
use picasso_backend.Base.Table.{exists}
use picasso_backend.Domain.Ids.{SteamId}
use picasso_backend.Storage.Rows.{Database}
use picasso_backend.Storage.ContactRepository.{can_communicate}
use picasso_backend.Service.Conversations.{unique_invitees, all_allowed}

-- Whether a user is in a list.
abbrev pub names : SteamId → List SteamId → Bool
names i ids = exists (λ u. nat_beq u i) ids

names-snoc :
    (i j : SteamId) (ids : List SteamId) → names i (ids ++ j ∷ []) ≡ (names i ids || nat_beq j i)
unfolding exists
names-snoc i j [] = ground arith
names-snoc i j (k ∷ ks) = ground (arith, names-snoc i j ks)

names-equal : (i j : SteamId) (ids : List SteamId) → i ≡ j → names i ids ≡ names j ids
names-equal i j ids h = ap (λ k. names k ids) h

-- Those who are invited are all that are named but the creator.
pub names-unique_invitees :
    (me i : SteamId) (unique ids : List SteamId)
    → names i (unique_invitees me unique ids)
      ≡ (names i unique || names i ids && not (nat_beq i me))
unfolding unique_invitees exists
names-unique_invitees me i unique [] = ground arith
names-unique_invitees me i unique (j ∷ js) = elim (Bool-cases (nat_beq j me || names j unique)) [
  | inl left_out ↦
      rw left_out
        (ground (arith, left_out, names-unique_invitees me i unique js, names-equal i j unique))
  | inr new ↦
      rw new (
        ground
          (arith, new, names-unique_invitees me i (unique ++ j ∷ []) js, names-snoc i j unique))
]

pub all_allowed-names :
    (me i : SteamId) (ids : List SteamId) (db : Database)
    → all_allowed me ids db ≡ true
    → names i ids ≡ true
    → can_communicate me i db ≡ true
unfolding exists
all_allowed-names me i [] db h there = ground (arith, there)
all_allowed-names me i (j ∷ js) db h there = elim (Bool-cases (nat_beq j i)) [
  | inl same ↦
      let equal : j ≡ i = ground (arith, same) in
      subst (λ k. can_communicate me k db ≡ true) equal (ground (arith, h))
  | inr other ↦ all_allowed-names me i js db (ground (arith, h)) (ground (arith, there, other))
]

pub all_allowed-refused :
    (me : SteamId) (ids : List SteamId) (db : Database)
    → all_allowed me ids db ≡ false
    → (i : SteamId) × (names i ids ≡ true) × (can_communicate me i db ≡ false)
unfolding exists
all_allowed-refused me [] db h = cc
all_allowed-refused me (j ∷ js) db h = elim (Bool-cases (can_communicate me j db)) [
  | inl allowed ↦
      let (i, there, not_allowed) = all_allowed-refused me js db (ground (arith, h, allowed)) in
      (i, ground (arith, there), not_allowed)
  | inr not_allowed ↦ (j, ground arith, not_allowed)
]
