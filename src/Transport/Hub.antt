-- ===== src/Transport/Hub.antt =====
-- The registry of live connections (src/transport/ws/ConnectionHub.cpp). A weak pointer is the
-- connection that it was made from; `alive` says whether it can still be locked, which the owners
-- of the sessions decide. The hash map is an association list.
pub mod Delivery
use picasso_backend.Base.{
  ℕ, Bool, true, false, not, ◌||◌, List, [], ◌∷◌, ◌++◌, Bytes, ◌==◌, nat_eq, is_empty,
  if◌then◌else◌,
}
use picasso_backend.Base.Table.{select, delete}
use picasso_backend.Domain.Ids.{SteamId, ConnectionId}

-- The address of the session object, and its connection id (src/transport/ws/Outbound.hpp).
pub record Connection : Type 0 where
  pub address : ℕ
  pub connection_id : ConnectionId

abbrev pub Hub : Type 0
Hub = List (SteamId × List Connection)

-- What `Outbound::send` was called with.
pub record Sent : Type 0 where
  pub to : Connection
  pub frame : Bytes

-- `connections_[steamId].push_back(connection)`
unfoldable pub add : SteamId → Connection → Hub → Hub
add id c [] = (id, c ∷ []) ∷ []
add id c ((i, cs) ∷ rest) = if i == id then (i, cs ++ c ∷ []) ∷ rest else (i, cs) ∷ add id c rest

unfoldable pub find : SteamId → Hub → List Connection
find id [] = []
find id ((i, cs) ∷ rest) = if i == id then cs else find id rest

unfoldable pub send_each : List Connection → Bytes → List Sent
send_each [] frame = []
send_each (c ∷ cs) frame = record { to = c; frame = frame } ∷ send_each cs frame

unfoldable pub send_each_except : List Connection → Bytes → ConnectionId → List Sent
send_each_except [] frame except = []
send_each_except (c ∷ cs) frame except =
    let rest = send_each_except cs frame except in
    if not (c.connection_id == except) then record { to = c; frame = frame } ∷ rest else rest

module _ (alive : ℕ → Bool) where
  unfoldable pub remove : SteamId → ℕ → Hub → Hub
  unfolding delete
  remove id address [] = []
  remove id address ((i, cs) ∷ rest) =
      let kept = delete (λ c. not (alive c.address) || c.address == address) cs in
      let others = remove id address rest in
      if i == id then if is_empty kept then rest else (i, kept) ∷ rest else (i, cs) ∷ others

  unfoldable pub resolve : SteamId → Hub → List Connection
  unfolding find select
  resolve id hub = select (λ c. alive c.address) (find id hub)

  unfoldable pub is_online : SteamId → Hub → Bool
  unfolding resolve
  is_online id hub = not (is_empty (resolve id hub))

  unfoldable pub online_among : List SteamId → Hub → List SteamId
  unfolding is_online
  online_among [] hub = []
  online_among (id ∷ ids) hub =
      let rest = online_among ids hub in if is_online id hub then id ∷ rest else rest

  unfoldable pub send_to : SteamId → Bytes → Hub → List Sent
  unfolding resolve send_each
  send_to id frame hub = send_each (resolve id hub) frame

  unfoldable pub send_to_all : List SteamId → Bytes → Hub → List Sent
  unfolding send_to
  send_to_all [] frame hub = []
  send_to_all (id ∷ ids) frame hub = send_to id frame hub ++ send_to_all ids frame hub

  unfoldable pub send_to_all_except : List SteamId → Bytes → ConnectionId → Hub → List Sent
  unfolding resolve send_each_except
  send_to_all_except [] frame except hub = []
  send_to_all_except (id ∷ ids) frame except hub =
      send_each_except (resolve id hub) frame except ++ send_to_all_except ids frame except hub
