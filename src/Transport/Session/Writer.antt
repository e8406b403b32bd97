-- ===== src/Transport/Session/Writer.antt =====
-- The thread that writes what is in the queue of a session (src/transport/ws/WsSession.cpp,
-- `writerLoop`). Whether a write to the socket throws is an argument.
use picasso_backend.Base.{
  ℕ, zero, suc, Bool, true, false, List, [], ◌∷◌, Option, none, some, Bytes, codes, if◌then◌else◌,
}
use picasso_backend.Transport.FrameQueue.{
  FrameQueue, Item, pop, frame_item, pong_item, overflow_item, closed_item,
}

abbrev pub close_try_again_later : ℕ
close_try_again_later = 1013

-- The calls of the socket.
pub data Write : Type 0 where
  send_close : (code : ℕ) (message : Bytes) → Write
  send_pong : Bytes → Write
  send_one_frame_text : Bytes → Write

-- What the writer does next: it waits in `pop`, or it has returned. `running` is left over where
-- the fuel is too small.
pub data Status : Type 0 where
  waiting returned running : Status

pub record Written : Type 0 where
  pub status : Status
  pub writes : List Write
  pub left : FrameQueue

abbrev pub after : Write → Written → Written
after w r = record r { writes = w ∷ r.writes }

abbrev pub write_of : Item → Option Write
write_of item = elim item.kind [
  | closed_item ↦ none
  | overflow_item ↦ some (send_close close_try_again_later (codes "slow consumer"))
  | pong_item ↦ some (send_pong item.data_bytes)
  | frame_item ↦ some (send_one_frame_text item.data_bytes)
]

-- Whether the loop goes on after the item.
abbrev pub goes_on : Item → Bool
goes_on item = elim item.kind [
  | closed_item ↦ false
  | overflow_item ↦ false
  | pong_item ↦ true
  | frame_item ↦ true
]

-- Whether a write throws depends on which one it is, counted from the first of the session, and on
-- what is written.
module _ (throws : ℕ → Write → Bool) where
  -- `n` writes have been made before.
  unfoldable pub writer_loop : ℕ → ℕ → FrameQueue → Written
  writer_loop n zero q = record { status = running; writes = []; left = q }
  writer_loop n (suc fuel) q = elim (pop q) [
    | none ↦ record { status = waiting; writes = []; left = q }
    | some (item, q') ↦
        let rest = writer_loop (suc n) fuel q' in
        elim (write_of item) [
          | none ↦ record { status = returned; writes = []; left = q' }
          | some w ↦
              if throws n w
              then record { status = returned; writes = w ∷ []; left = q' }
              else if goes_on item
              then after w rest
              else record { status = returned; writes = w ∷ []; left = q' }
        ]
  ]
