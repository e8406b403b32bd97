-- ===== src/Transport/FrameQueue/Bounds.antt =====
-- The bounds of the frame queue (src/transport/ws/BoundedFrameQueue.hpp).
use picasso_backend.Base.{
  ℕ, ◌+◌, ◌^◌, ◌≤◌, ◌<◌, ◌≡◌, List, [], ◌∷◌, ◌++◌, some, length, length-append, arith,
}
use picasso_backend.Transport.FrameQueue.{
  Entry, FrameQueue, Item, create, enqueue, pop, pop_front, close,
}

abbrev pub total : List Entry → ℕ
total [] = 0
total (e ∷ es) = length e.data_bytes + total es

total-snoc : (es : List Entry) (e : Entry) → total (es ++ e ∷ []) ≡ total es + length e.data_bytes
total-snoc [] e = omega arith
total-snoc (x ∷ es) e = omega (arith, total-snoc es e)

-- The limits leave room below the modulus of `std::size_t` for one more string, whose length is
-- below 2 ^ 63.
pub record IsBounded (q : FrameQueue) : Type 0 where
  pub frames_room : q.max_frames < 2 ^ 63
  pub bytes_room : q.max_bytes < 2 ^ 63
  pub few_frames : length q.entries ≤ q.max_frames
  pub counted : q.bytes ≡ total q.entries
  pub few_bytes : q.bytes ≤ q.max_bytes

pub create-IsBounded : (f b : ℕ) → f < 2 ^ 63 → b < 2 ^ 63 → IsBounded (create f b)
unfolding create
create-IsBounded f b hf hb = omega arith

-- The counter is the number of bytes in the queue, and neither limit is ever exceeded.
pub enqueue-IsBounded :
    (e : Entry) (q : FrameQueue)
    → length e.data_bytes < 2 ^ 63
    → IsBounded q
    → IsBounded (enqueue e q).0
unfolding enqueue
enqueue-IsBounded e q h v = ground (arith, total-snoc q.entries e, length-append q.entries (e ∷ []))

pub close-IsBounded : (q : FrameQueue) → IsBounded q → IsBounded (close q)
unfolding close
close-IsBounded q v = omega arith

pub pop-IsBounded :
    (q : FrameQueue) {i : Item} {q' : FrameQueue}
    → pop q ≡ some (i, q')
    → IsBounded q
    → IsBounded q'
unfolding pop pop_front
pop-IsBounded q h v = ground arith
