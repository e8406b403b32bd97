-- ===== src/Transport/FrameQueue/Order.antt =====
-- The order in which the writer gets the frames (src/transport/ws/BoundedFrameQueue.hpp).
use mathlib.Core.List.{append-nil, append_assoc}
use picasso_backend.Base.{
  ℕ, ◌≡◌, refl, ◌∙◌, true, false, ◌||◌, List, [], ◌∷◌, ◌++◌, Option, none, some, Bytes, arith,
  if◌then◌else◌,
}
use picasso_backend.Transport.FrameQueue.{
  Entry, FrameQueue, Item, create, exceeds, enqueue, pop, pop_front, close, accepted, frame_item,
  pong_item, overflow_item, closed_item, Kind,
}

pub data Operation : Type 0 where
  enqueue_op : Entry → Operation
  pop_op : Operation
  close_op : Operation

-- A run: the queue, the entries that it accepted and the entries that the writer was given.
pub record Trace : Type 0 where
  pub queue : FrameQueue
  pub taken : List Entry
  pub given : List Entry

abbrev pub starting : ℕ → ℕ → Trace
starting f b = record { queue = create f b; taken = []; given = [] }

-- The entry that an item stands for; the items that end the writer stand for none.
abbrev pub entry_at : Kind → Bytes → List Entry
entry_at frame_item d = record { pong = false; data_bytes = d } ∷ []
entry_at pong_item d = record { pong = true; data_bytes = d } ∷ []
entry_at overflow_item d = []
entry_at closed_item d = []

unfoldable pub after_pop : Option (Item × FrameQueue) → Trace → Trace
after_pop none t = t
after_pop (some (i, q)) t = record t { queue = q; given = t.given ++ entry_at i.kind i.data_bytes }

-- A `pop` that would wait changes nothing.
unfoldable pub step : Operation → Trace → Trace
unfolding after_pop
step (enqueue_op e) t =
    let (q, result) = enqueue e t.queue in
    elim result [
      | accepted ↦ record t { queue = q; taken = t.taken ++ e ∷ [] }
      | _ ↦ record t { queue = q }
    ]
step pop_op t = after_pop (pop t.queue) t
step close_op t = record t { queue = close t.queue }

unfoldable pub run : List Operation → Trace → Trace
unfolding step
run [] t = t
run (o ∷ os) t = run os (step o t)

-- The writer was given a beginning of what was accepted, in order; what is missing is in the queue
-- while that is open, and was dropped otherwise.
pub record IsFifo (t : Trace) : Type 0 where
  pub dropped : List Entry
  pub in_order : t.taken ≡ t.given ++ (t.queue.entries ++ dropped)
  pub open_keeps : (t.queue.closed || t.queue.overflowed) ≡ false → dropped ≡ []
  pub shut_empty : (t.queue.closed || t.queue.overflowed) ≡ true → t.queue.entries ≡ []

-- What an enqueue drops: the queue's entries if it overflows by it.
dropped_by : Entry → FrameQueue → List Entry → List Entry
dropped_by e q d = if q.closed || q.overflowed then d else if exceeds q e then q.entries ++ d else d

module _ (e : Entry) (t : Trace) (v : IsFifo t) where
  enqueue-in_order :
      let t' = step (enqueue_op e) t in
      t'.taken ≡ t'.given ++ (t'.queue.entries ++ dropped_by e t.queue v.dropped)
  unfolding step enqueue dropped_by
  enqueue-in_order = ground (
    arith,
    v.in_order,
    v.open_keeps,
    v.shut_empty,
    append-nil t.queue.entries,
    append-nil (t.queue.entries ++ e ∷ []),
    append_assoc t.given t.queue.entries (e ∷ []),
  )

  enqueue-open_keeps :
      let t' = step (enqueue_op e) t in
      (t'.queue.closed || t'.queue.overflowed) ≡ false → dropped_by e t.queue v.dropped ≡ []
  unfolding step enqueue dropped_by
  enqueue-open_keeps = ground (arith, v.open_keeps)

  enqueue-shut_empty :
      let t' = step (enqueue_op e) t in
      (t'.queue.closed || t'.queue.overflowed) ≡ true → t'.queue.entries ≡ []
  unfolding step enqueue
  enqueue-shut_empty = ground (arith, v.shut_empty)

  enqueue-IsFifo : IsFifo (step (enqueue_op e) t)
  enqueue-IsFifo = record {
    dropped = dropped_by e t.queue v.dropped;
    in_order = enqueue-in_order;
    open_keeps = enqueue-open_keeps;
    shut_empty = enqueue-shut_empty;
  }

pop-IsFifo :
    (es : List Entry) (t : Trace) → t.queue.entries ≡ es → IsFifo t → IsFifo (step pop_op t)
unfolding step pop pop_front
pop-IsFifo [] t h v = record {
  dropped = v.dropped;
  in_order = ground (arith, v.in_order, h, append-nil t.given);
  open_keeps = ground (arith, v.open_keeps, h);
  shut_empty = ground (arith, v.shut_empty, h);
}
pop-IsFifo (e ∷ es) t h v = record {
  dropped = v.dropped;
  in_order = ground (
    arith,
    v.in_order,
    h,
    v.shut_empty,
    append-nil t.given,
    append_assoc t.given (e ∷ []) (es ++ v.dropped),
  );
  open_keeps = ground (arith, v.open_keeps, h);
  shut_empty = ground (arith, v.shut_empty, h);
}

close-IsFifo : (t : Trace) → IsFifo t → IsFifo (step close_op t)
unfolding step close
close-IsFifo t v = record {
  dropped = t.queue.entries ++ v.dropped;
  in_order = ground (arith, v.in_order);
  open_keeps = λ h. cc;
  shut_empty = λ h. refl;
}

pub step-IsFifo : (o : Operation) (t : Trace) → IsFifo t → IsFifo (step o t)
step-IsFifo (enqueue_op e) t v = enqueue-IsFifo e t v
step-IsFifo pop_op t v = pop-IsFifo t.queue.entries t refl v
step-IsFifo close_op t v = close-IsFifo t v

run_from-IsFifo : (os : List Operation) (t : Trace) → IsFifo t → IsFifo (run os t)
unfolding run
run_from-IsFifo [] t v = v
run_from-IsFifo (o ∷ os) t v = run_from-IsFifo os (step o t) (step-IsFifo o t v)

starting-IsFifo : (f b : ℕ) → IsFifo (starting f b)
unfolding create
starting-IsFifo f b = record {
  dropped = [];
  in_order = refl;
  open_keeps = λ _. refl;
  shut_empty = λ _. refl;
}

-- In every run of pushes, pops and closes on a new queue the writer is given a beginning of the
-- accepted entries, in the order of the pushes; the rest is in the queue while the queue is neither
-- closed nor overflowed, and a queue that is closed or overflowed holds nothing.
pub run-IsFifo : (f b : ℕ) (os : List Operation) → IsFifo (run os (starting f b))
run-IsFifo f b os = run_from-IsFifo os (starting f b) (starting-IsFifo f b)

abbrev IsShut : Trace → Type 0
IsShut t = (t.queue.closed || t.queue.overflowed) ≡ true

module _ (t : Trace) (h : IsShut t) where
  step-IsShut :
      (o : Operation)
      → IsShut (step o t) × ((step o t).taken ≡ t.taken) × ((step o t).given ≡ t.given)
  unfolding step enqueue pop pop_front close
  step-IsShut (enqueue_op e) = ground (arith, h)
  step-IsShut pop_op = ground (arith, h, append-nil t.given)
  step-IsShut close_op = ground (arith, h)

-- From a queue that is closed or has overflowed, whatever is called, no more entries are accepted
-- or given.
pub shut_stays :
    (os : List Operation) (t : Trace)
    → (t.queue.closed || t.queue.overflowed) ≡ true
    → ((run os t).taken ≡ t.taken) × ((run os t).given ≡ t.given)
unfolding run
shut_stays [] t h = (refl, refl)
shut_stays (o ∷ os) t h =
    let (shut, same_taken, same_given) = step-IsShut t h o in
    let (later_taken, later_given) = shut_stays os (step o t) shut in
    (later_taken ∙ same_taken, later_given ∙ same_given)
