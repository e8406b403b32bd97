-- ===== src/Tests/Transport.antt =====
-- The frame queue and the hub on small inputs (src/transport/ws/BoundedFrameQueue.hpp,
-- src/transport/ws/ConnectionHub.cpp).
use picasso_backend.Base.{ℕ, ◌≡◌, refl, true, false, Bool, List, [], ◌∷◌, arith}
use picasso_backend.Base.Table.{select, delete, exists}
use picasso_backend.Transport.FrameQueue.{Entry, create, enqueue, pop, pop_front, close}
use picasso_backend.Transport.FrameQueue.Bounds.{IsBounded}
use picasso_backend.Transport.FrameQueue.Capacity.{run-IsBounded}
use picasso_backend.Transport.FrameQueue.Order.{
  Operation, enqueue_op, pop_op, starting, after_pop, step, run, IsFifo, run-IsFifo,
}
use picasso_backend.Transport.Hub.{
  Connection, Hub, add, remove, find, resolve, is_online, online_among, send_to, send_to_all,
  send_to_all_except, send_each, send_each_except,
}

program : Unit {0}
unfolding create enqueue pop pop_front close after_pop step run select delete exists add remove find
    resolve is_online online_among send_to send_to_all send_to_all_except send_each send_each_except
program = tt

abbrev hello : Entry
hello = record { pong = false; data_bytes = 104 ∷ 105 ∷ [] }

abbrev ping : Entry
ping = record { pong = true; data_bytes = 7 ∷ [] }

-- The third entry is one too many.
abbrev calls : List Operation
calls = enqueue_op hello ∷ enqueue_op ping ∷ pop_op ∷ enqueue_op hello ∷ enqueue_op ping ∷ []

calls_given : (run calls (starting 2 100)).given ≡ hello ∷ []
unfolding program
calls_given = refl

calls_overflow : (run calls (starting 2 100)).queue.overflowed ≡ true
unfolding program
calls_overflow = refl

run-IsFifo_example : IsFifo (run calls (starting 2 100))
run-IsFifo_example = run-IsFifo 2 100 calls

run-IsBounded_example : IsBounded (run calls (starting 2 100)).queue
run-IsBounded_example =
    run-IsBounded 2 100 calls (omega arith) (omega arith)
      (omega arith, (omega arith, (tt, (omega arith, (omega arith, tt)))))

abbrev laptop : Connection
laptop = record { address = 100; connection_id = 1 }

abbrev phone : Connection
phone = record { address = 200; connection_id = 2 }

abbrev everyone_alive : ℕ → Bool
everyone_alive a = true

abbrev home : Hub
home = (7, laptop ∷ []) ∷ (8, phone ∷ []) ∷ []
