-- ===== src/Transport/Session/Drain.antt =====
-- The writer empties the queue of a session and stops (src/transport/ws/WsSession.cpp,
-- `writerLoop`; src/transport/ws/BoundedFrameQueue.hpp, `pop`).
use picasso_backend.Base.{
  ℕ, zero, suc, ◌≡◌, ◌<◌, refl, Bool, true, false, ◌||◌, List, [], ◌∷◌, length, codes,
  if◌then◌else◌, arith, inl, inr, Bool-cases,
}
use picasso_backend.Transport.FrameQueue.{FrameQueue, Entry, sub_size, pop, pop_front}
use picasso_backend.Transport.Session.Writer.{
  Write, send_close, send_pong, send_one_frame_text, close_try_again_later, waiting, returned,
  writer_loop,
}

abbrev pub entry_write : Entry → Write
entry_write e = if e.pong then send_pong e.data_bytes else send_one_frame_text e.data_bytes

abbrev pub entry_writes : List Entry → List Write
entry_writes [] = []
entry_writes (e ∷ es) = entry_write e ∷ entry_writes es

-- What is to be written for a queue.
abbrev pub due : FrameQueue → List Write
due q =
    if q.closed
    then []
    else if q.overflowed
    then send_close close_try_again_later (codes "slow consumer") ∷ []
    else entry_writes q.entries

-- The writes up to the first that throws, after `n` others.
abbrev pub until_thrown : (ℕ → Write → Bool) → ℕ → List Write → List Write
until_thrown throws n [] = []
until_thrown throws n (w ∷ ws) = if throws n w then w ∷ [] else w ∷ until_thrown throws (suc n) ws

-- Whether one of them throws.
abbrev pub any_thrown : (ℕ → Write → Bool) → ℕ → List Write → Bool
any_thrown throws n [] = false
any_thrown throws n (w ∷ ws) = throws n w || any_thrown throws (suc n) ws

abbrev with_flags : Bool → Bool → FrameQueue → FrameQueue
with_flags closed overflowed q = record q { closed = closed; overflowed = overflowed }

module _ (throws : ℕ → Write → Bool) where
  -- The writer on a queue that is neither closed nor overflowed.
  drain_open :
      (n fuel : ℕ) (q : FrameQueue) (es : List Entry)
      → length es < fuel
      → ((writer_loop throws n fuel (record (with_flags false false q) { entries = es })).writes
          ≡ until_thrown throws n (entry_writes es))
        × ((writer_loop throws n fuel (record (with_flags false false q) { entries = es })).status
            ≡ (if any_thrown throws n (entry_writes es) then returned else waiting))
  unfolding writer_loop pop pop_front
  drain_open n zero q es h = ground (arith, h)
  drain_open n (suc fuel) q [] h = (refl, refl)
  drain_open n (suc fuel) q (x ∷ es) h =
      let (ws, st) =
        drain_open (suc n) fuel (record q { bytes = sub_size q.bytes (length x.data_bytes) }) es
          (omega (arith, h)) in
      elim (Bool-cases x.pong) [
        | inl pong ↦ elim (Bool-cases (throws n (send_pong x.data_bytes))) [
          | inl thrown ↦ rw (pong, thrown) (refl, refl)
          | inr fine ↦ rw (pong, fine, ws, st) (refl, refl)
        ]
        | inr frame ↦ elim (Bool-cases (throws n (send_one_frame_text x.data_bytes))) [
          | inl thrown ↦ rw (frame, thrown) (refl, refl)
          | inr fine ↦ rw (frame, fine, ws, st) (refl, refl)
        ]
      ]

  abbrev Drains : ℕ → ℕ → FrameQueue → Type 0
  Drains n fuel q =
      ((writer_loop throws n fuel q).writes ≡ until_thrown throws n (due q))
      × ((writer_loop throws n fuel q).status
          ≡ (if q.closed || q.overflowed || any_thrown throws n (due q) then returned else waiting))

  drain_flags :
      (n fuel : ℕ) (closed overflowed : Bool) (q : FrameQueue)
      → length q.entries < fuel
      → Drains n fuel (with_flags closed overflowed q)
  unfolding writer_loop pop
  drain_flags n zero closed overflowed q h = ground (arith, h)
  drain_flags n (suc fuel) true overflowed q h = (refl, refl)
  drain_flags n (suc fuel) false true q h =
      elim (Bool-cases (throws n (send_close close_try_again_later (codes "slow consumer")))) [
        | inl thrown ↦ rw thrown (refl, refl)
        | inr fine ↦ rw fine (refl, refl)
      ]
  drain_flags n (suc fuel) false false q h = drain_open n (suc fuel) q q.entries h

  -- With more steps than there are entries in the queue the writer comes to an end: it writes what
  -- is due, up to the first write that throws, and then it has returned, or it waits for more where
  -- the queue is neither closed nor overflowed and nothing threw. Due are all entries in their
  -- order, only the closing frame after an overflow, and nothing once the queue is closed.
  pub writer_loop-drains :
      (n fuel : ℕ) (q : FrameQueue)
      → length q.entries < fuel
      → ((writer_loop throws n fuel q).writes ≡ until_thrown throws n (due q))
        × ((writer_loop throws n fuel q).status ≡ (
            if q.closed || q.overflowed || any_thrown throws n (due q) then returned else waiting))
  writer_loop-drains n fuel q h = drain_flags n fuel q.closed q.overflowed q h
