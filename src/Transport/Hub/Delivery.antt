-- ===== src/Transport/Hub/Delivery.antt =====
-- Who receives what from the hub (src/transport/ws/ConnectionHub.cpp).
use picasso_backend.Base.{
  ℕ, ◌≡◌, refl, Bool, true, false, not, ◌||◌, List, [], ◌∷◌, ◌++◌, Bytes, nat_beq, is_empty,
  if◌then◌else◌, arith,
}
use picasso_backend.Base.Table.{select, delete, exists}
use picasso_backend.Domain.Ids.{SteamId, ConnectionId}
use picasso_backend.Transport.Hub.{
  Connection, Hub, Sent, add, find, remove, resolve, is_online, online_among, send_each, send_to,
  send_to_all, send_each_except, send_to_all_except,
}

find-add :
    (id i : SteamId) (c : Connection) (h : Hub)
    → find i (add id c h) ≡ (if nat_beq i id then find i h ++ c ∷ [] else find i h)
unfolding find add
find-add id i c [] = ground arith
find-add id i c ((j, cs) ∷ h) = ground (arith, find-add id i c h)

select-append {ℓ} :
    {A : Type ℓ} (p : A → Bool) (xs ys : List A) → select p (xs ++ ys) ≡ select p xs ++ select p ys
unfolding select
select-append p [] ys = refl
select-append p (x ∷ xs) ys = ground (arith, select-append p xs ys)

delete-append {ℓ} :
    {A : Type ℓ} (p : A → Bool) (xs ys : List A) → delete p (xs ++ ys) ≡ delete p xs ++ delete p ys
unfolding delete
delete-append p [] ys = refl
delete-append p (x ∷ xs) ys = ground (arith, delete-append p xs ys)

select-is_empty {ℓ} :
    {A : Type ℓ} (p : A → Bool) (xs : List A) → not (is_empty (select p xs)) ≡ exists p xs
unfolding select exists
select-is_empty p [] = refl
select-is_empty p (x ∷ xs) = ground (arith, select-is_empty p xs)

module _ (alive : ℕ → Bool) where
  -- A new connection that is alive is reached last among those of its user, and nobody else's are
  -- affected.
  pub resolve-add :
      (id i : SteamId) (c : Connection) (h : Hub)
      → alive c.address ≡ true
      → resolve alive i (add id c h)
        ≡ (if nat_beq i id then resolve alive i h ++ c ∷ [] else resolve alive i h)
  unfolding resolve select
  resolve-add id i c h live =
      ground
        (arith, live, find-add id i c h, select-append (λ c. alive c.address) (find i h) (c ∷ []))

  select-delete :
      (address : ℕ) (cs : List Connection)
      → select
          (λ c. alive c.address)
          (delete (λ c. not (alive c.address) || nat_beq c.address address) cs)
        ≡ delete (λ c. nat_beq c.address address) (select (λ c. alive c.address) cs)
  unfolding select delete
  select-delete address [] = refl
  select-delete address (c ∷ cs) = ground (arith, select-delete address cs)

abbrev pub has : SteamId → Hub → Bool
has id [] = false
has id ((i, cs) ∷ h) = nat_beq i id || has id h

-- The map has one entry for a user, and none without a connection.
abbrev pub IsMap : Hub → Type 0
IsMap [] = Unit
IsMap ((i, cs) ∷ h) = (has i h ≡ false) × (is_empty cs ≡ false) × IsMap h

find-absent : (id : SteamId) (h : Hub) → has id h ≡ false → find id h ≡ []
unfolding find
find-absent id [] a = refl
find-absent id ((i, cs) ∷ h) a = ground (arith, find-absent id h)

has-add :
    (id i : SteamId) (c : Connection) (h : Hub) → has i (add id c h) ≡ (nat_beq i id || has i h)
unfolding add
has-add id i c [] = ground arith
has-add id i c ((j, cs) ∷ h) = ground (arith, has-add id i c h)

add-IsMap : (id : SteamId) (c : Connection) (h : Hub) → IsMap h → IsMap (add id c h)
unfolding add
add-IsMap id c [] m = (refl, refl, tt)
add-IsMap id c ((j, []) ∷ h) m = cc (m.1)
add-IsMap id c ((j, x ∷ cs) ∷ h) m = ground (arith, m.0, has-add id j c h, add-IsMap id c h m.2)

module _ (alive : ℕ → Bool) (id : SteamId) (address : ℕ) where
  has-remove : (i : SteamId) (h : Hub) → has i h ≡ false → has i (remove alive id address h) ≡ false
  unfolding remove
  has-remove i [] a = refl
  has-remove i ((j, cs) ∷ h) a = ground (arith, has-remove i h)

  -- A disconnect keeps the map without empty entries.
  remove-IsMap : (h : Hub) → IsMap h → IsMap (remove alive id address h)
  unfolding remove
  remove-IsMap [] m = tt
  remove-IsMap ((j, cs) ∷ h) m =
      ground (arith, m.0, m.1, m.2, has-remove j h m.0, remove-IsMap h m.2)

  -- In a map with one non-empty entry for a user, a removal takes the connections of that address
  -- from those that are reached for the user, and changes nothing for anybody else.
  resolve-remove :
      (i : SteamId) (h : Hub)
      → IsMap h
      → resolve alive i (remove alive id address h) ≡ (
          if nat_beq i id
          then delete (λ c. nat_beq c.address address) (resolve alive i h)
          else resolve alive i h)
  unfolding resolve find remove
  resolve-remove i [] m = ground arith
  resolve-remove i ((j, cs) ∷ h) m =
      ground
        (arith, m.0, find-absent j h m.0, select-delete alive address cs, resolve-remove i h m.2)

module _ (alive : ℕ → Bool) where
  send_each_except_lem :
      (cs : List Connection) (frame : Bytes) (except : ConnectionId)
      → send_each_except cs frame except
        ≡ delete (λ s. nat_beq s.to.connection_id except) (send_each cs frame)
  unfolding send_each_except send_each delete
  send_each_except_lem [] frame except = refl
  send_each_except_lem (c ∷ cs) frame except = ground (arith, send_each_except_lem cs frame except)

  -- With an exception the frames are those of a delivery to all, less the excepted connection's.
  pub send_to_all_except_lem :
      (ids : List SteamId) (frame : Bytes) (except : ConnectionId) (h : Hub)
      → send_to_all_except alive ids frame except h
        ≡ delete (λ s. nat_beq s.to.connection_id except) (send_to_all alive ids frame h)
  unfolding send_to_all_except send_to_all send_to delete
  send_to_all_except_lem [] frame except h = refl
  send_to_all_except_lem (id ∷ ids) frame except h = ground (
    arith,
    send_each_except_lem (resolve alive id h) frame except,
    send_to_all_except_lem ids frame except h,
    delete-append (λ (s : Sent). nat_beq s.to.connection_id except)
        (send_each (resolve alive id h) frame) (send_to_all alive ids frame h),
  )

  -- The users online are those given, in their order, that have a connection which is alive.
  pub online_among_lem :
      (ids : List SteamId) (h : Hub)
      → online_among alive ids h ≡ select (λ id. exists (λ c. alive c.address) (find id h)) ids
  unfolding online_among is_online select
  online_among_lem [] h = refl
  online_among_lem (id ∷ ids) h = ground (
    arith,
    select-is_empty (λ (c : Connection). alive c.address) (find id h),
    online_among_lem ids h,
  )
