-- ===== src/Transport/FrameQueue.antt =====
-- The bounded queue of frames in front of a socket (src/transport/ws/BoundedFrameQueue.hpp). Every
-- method holds the mutex for its whole body, so a run is a sequence of calls; `pop` waits on the
-- condition variable where it gives `none`.
pub mod Bounds
pub mod Capacity
pub mod Order
use picasso_backend.Base.{
  ◌-◌, ℕ, ◌+◌, ◌%◌, ◌^◌, Bool, true, false, ◌||◌, List, [], ◌∷◌, ◌++◌, Option, none, some, Bytes,
  length, ltb, is_empty, not, if◌then◌else◌,
}

pub record Entry : Type 0 where
  pub pong : Bool
  pub data_bytes : Bytes

pub record FrameQueue : Type 0 where
  pub max_frames : ℕ
  pub max_bytes : ℕ
  pub entries : List Entry
  pub bytes : ℕ
  pub overflowed : Bool
  pub closed : Bool

pub data PushResult : Type 0 where
  accepted push_overflowed push_closed : PushResult

pub data Kind : Type 0 where
  frame_item pong_item overflow_item closed_item : Kind

pub record Item : Type 0 where
  pub kind : Kind
  pub data_bytes : Bytes

-- Sums of `std::size_t`.
abbrev pub add_size : ℕ → ℕ → ℕ
add_size a b = (a + b) % 2 ^ 64

-- Differences of `std::size_t`.
abbrev pub sub_size : ℕ → ℕ → ℕ
sub_size a b = (a + (2 ^ 64 - b % 2 ^ 64)) % 2 ^ 64

unfoldable pub create : ℕ → ℕ → FrameQueue
create max_frames max_bytes = record {
  max_frames = max_frames;
  max_bytes = max_bytes;
  entries = [];
  bytes = 0;
  overflowed = false;
  closed = false;
}

abbrev pub exceeds : FrameQueue → Entry → Bool
exceeds q e =
    ltb q.max_frames (add_size (length q.entries) 1)
    || ltb q.max_bytes (add_size q.bytes (length e.data_bytes))

unfoldable pub enqueue : Entry → FrameQueue → FrameQueue × PushResult
enqueue e q =
    if q.closed
    then (q, push_closed)
    else if q.overflowed
    then (q, push_overflowed)
    else if exceeds q e
    then (record q { overflowed = true; entries = []; bytes = 0 }, push_overflowed)
    else (
      record q { bytes = add_size q.bytes (length e.data_bytes); entries = q.entries ++ e ∷ [] },
      accepted,
    )

unfoldable pub push : Bytes → FrameQueue → FrameQueue × PushResult
unfolding enqueue
push frame q = enqueue (record { pong = false; data_bytes = frame }) q

unfoldable pub push_pong : Bytes → FrameQueue → FrameQueue × PushResult
unfolding enqueue
push_pong payload q = enqueue (record { pong = true; data_bytes = payload }) q

-- What a front entry becomes, and the queue without it.
unfoldable pub pop_front : List Entry → FrameQueue → Option (Item × FrameQueue)
pop_front [] q = none
pop_front (e ∷ rest) q = some (
  record { kind = if e.pong then pong_item else frame_item; data_bytes = e.data_bytes },
  record q { entries = rest; bytes = sub_size q.bytes (length e.data_bytes) },
)

unfoldable pub pop : FrameQueue → Option (Item × FrameQueue)
unfolding pop_front
pop q =
    if q.closed
    then some (record { kind = closed_item; data_bytes = [] }, q)
    else if q.overflowed
    then some (record { kind = overflow_item; data_bytes = [] }, q)
    else pop_front q.entries q

unfoldable pub close : FrameQueue → FrameQueue
close q = record q { closed = true; entries = []; bytes = 0 }
