-- ===== src/Transport/FrameQueue/Capacity.antt =====
-- The bounds of the frame queue over a whole run (src/transport/ws/BoundedFrameQueue.hpp).
use picasso_backend.Base.{
  ℕ, ◌^◌, ◌<◌, ◌≡◌, refl, List, [], ◌∷◌, Option, none, some, length, All, arith,
}
use picasso_backend.Transport.FrameQueue.{Entry, FrameQueue, Item, enqueue, pop}
use picasso_backend.Transport.FrameQueue.Bounds.{
  IsBounded, create-IsBounded, enqueue-IsBounded, pop-IsBounded, close-IsBounded,
}
use picasso_backend.Transport.FrameQueue.Order.{
  Operation, enqueue_op, pop_op, close_op, Trace, starting, step, after_pop, run,
}

-- A frame whose length is below 2 ^ 63.
abbrev pub IsSized : Operation → Type 0
IsSized (enqueue_op e) = length e.data_bytes < 2 ^ 63
IsSized pop_op = Unit
IsSized close_op = Unit

after_pop-IsBounded :
    (t : Trace) (o : Option (Item × FrameQueue))
    → pop t.queue ≡ o
    → IsBounded t.queue
    → IsBounded (after_pop o t).queue
unfolding after_pop
after_pop-IsBounded t none h v = v
after_pop-IsBounded t (some (i, q)) h v = pop-IsBounded t.queue h v

enqueued_queue : (e : Entry) (t : Trace) → (step (enqueue_op e) t).queue ≡ (enqueue e t.queue).0
unfolding step enqueue
enqueued_queue e t = ground arith

step-IsBounded :
    (o : Operation) (t : Trace) → IsSized o → IsBounded t.queue → IsBounded (step o t).queue
unfolding step
step-IsBounded (enqueue_op e) t h v = rw (enqueued_queue e t) (enqueue-IsBounded e t.queue h v)
step-IsBounded pop_op t h v = after_pop-IsBounded t (pop t.queue) refl v
step-IsBounded close_op t h v = close-IsBounded t.queue v

run_from-IsBounded :
    (os : List Operation) (t : Trace)
    → All IsSized os
    → IsBounded t.queue
    → IsBounded (run os t).queue
unfolding run
run_from-IsBounded [] t h v = v
run_from-IsBounded (o ∷ os) t h v =
    run_from-IsBounded os (step o t) (h.1) (step-IsBounded o t (h.0) v)

-- With limits below 2 ^ 63 and frames shorter than 2 ^ 63 bytes, after any run on a new queue the
-- byte counter is the exact size of what is in the queue, and neither limit is exceeded.
pub run-IsBounded :
    (f b : ℕ) (os : List Operation)
    → f < 2 ^ 63
    → b < 2 ^ 63
    → All IsSized os
    → IsBounded (run os (starting f b)).queue
run-IsBounded f b os hf hb h = run_from-IsBounded os (starting f b) h (create-IsBounded f b hf hb)
