-- ===== src/Service/Chat/RateLimit.antt =====
-- How much one sender may send (src/service/ChatService.cpp, `takeToken`).
use picasso_backend.Base.{
  ℕ, ◌+◌, ◌-◌, ◌*◌, ◌≤◌, ◌≡◌, refl, min, ◌&&◌, List, [], ◌∷◌, Option, none, some, nat_beq,
  nat_beq_iff, if◌then◌else◌, arith, Bool-cases, inl, inr, ap,
}
use picasso_backend.Base.Int.{pos, pos_part}
use picasso_backend.Domain.Ids.{SteamId, Time}
use picasso_backend.Service.Chat.Rate.{
  Bucket, Buckets, token, burst, spend, find_bucket, put_bucket, bucket_at, take_token,
}

-- How many of the calls by `id` are granted.
unfoldable pub granted : SteamId → List (SteamId × Time) → Buckets → ℕ
granted id [] bs = 0
granted id ((i, t) ∷ cs) bs =
    let (ok, bs') = take_token i t bs in (if ok && nat_beq i id then 1 else 0) + granted id cs bs'

-- The clock does not go back.
abbrev pub InOrder : Time → List (SteamId × Time) → Type 0
InOrder start [] = Unit
InOrder start ((i, t) ∷ cs) = (start ≤ t) × InOrder t cs

abbrev pub last_time : Time → List (SteamId × Time) → Time
last_time start [] = start
last_time start ((i, t) ∷ cs) = last_time t cs

last_time-InOrder :
    (start : Time) (cs : List (SteamId × Time)) → InOrder start cs → start ≤ last_time start cs
last_time-InOrder start [] h = omega arith
last_time-InOrder start ((i, t) ∷ cs) h = omega (arith, h.0, last_time-InOrder t cs h.1)

find_bucket-put_bucket :
    (j i : SteamId) (b : Bucket) (bs : Buckets)
    → find_bucket j (put_bucket i b bs) ≡ (if nat_beq i j then some b else find_bucket j bs)
unfolding find_bucket put_bucket
find_bucket-put_bucket j i b [] = ground arith
find_bucket-put_bucket j i b ((k, c) ∷ bs) =
    ground
      (arith, nat_beq_iff i j, nat_beq_iff k i, nat_beq_iff k j, find_bucket-put_bucket j i b bs)

-- A bucket holds a natural number of parts, no more than a full one, and was not refilled later
-- than `now`.
pub record IsSound (now : Time) (b : Bucket) : Type 0 where
  pub filled : b.tokens ≡ pos (pos_part b.tokens)
  pub not_over : pos_part b.tokens ≤ burst
  pub not_later : b.refilled_at_epoch_ms ≤ now

abbrev pub IsSoundOption : Time → Option Bucket → Type 0
IsSoundOption now none = Unit
IsSoundOption now (some b) = IsSound now b

-- What a call at `now` could spend.
abbrev pub allowance : Time → Option Bucket → ℕ
allowance now none = burst
allowance now (some b) = min burst (pos_part b.tokens + (now - b.refilled_at_epoch_ms))

tokens-bucket_at :
    (now : Time) (o : Option Bucket)
    → IsSoundOption now o
    → (bucket_at now o).tokens ≡ pos (allowance now o)
unfolding bucket_at
tokens-bucket_at now none s = refl
tokens-bucket_at now (some b) s = ground (arith, s.filled, s.not_over, s.not_later)

allowance-later :
    (start now : Time) (o : Option Bucket)
    → start ≤ now
    → IsSoundOption start o
    → allowance now o ≤ allowance start o + (now - start)
allowance-later start now none h s = omega arith
allowance-later start now (some b) h s = omega (arith, s.not_later)

IsSoundOption-later :
    (start now : Time) (o : Option Bucket)
    → start ≤ now
    → IsSoundOption start o
    → IsSoundOption now o
IsSoundOption-later start now none h s = tt
IsSoundOption-later start now (some b) h s = record {
  filled = s.filled;
  not_over = s.not_over;
  not_later = omega (arith, s.not_later);
}

-- What a call spends it no longer has.
allowance-spend :
    (now : Time) (o : Option Bucket)
    → IsSoundOption now o
    → let (ok, b) = spend (bucket_at now o) in
      IsSound now b × (token * (if ok then 1 else 0) + allowance now (some b) ≤ allowance now o)
unfolding spend bucket_at
allowance-spend now none s =
    (record { filled = refl; not_over = omega arith; not_later = omega arith }, omega arith)
allowance-spend now (some b) s = ground (arith, s.filled, s.not_over, s.not_later)

-- One call at `t`, seen from the bucket of `id`.
take_token_lem :
    (id i : SteamId) (t : Time) (bs : Buckets)
    → IsSoundOption t (find_bucket id bs)
    → let (ok, bs') = take_token i t bs in
      IsSoundOption t (find_bucket id bs')
      × (token * (if ok && nat_beq i id then 1 else 0) + allowance t (find_bucket id bs')
          ≤ allowance t (find_bucket id bs))
unfolding take_token
take_token_lem id i t bs s = elim (Bool-cases (nat_beq i id)) [
  | inl same ↦
      rw (find_bucket-put_bucket id i (spend (bucket_at t (find_bucket i bs))).1 bs, same)
        (ground (
          arith,
          allowance-spend t (find_bucket id bs) s,
          ap (λ x. find_bucket x bs) ((nat_beq_iff i id).0 same),
        ))
  | inr differ ↦
      rw (find_bucket-put_bucket id i (spend (bucket_at t (find_bucket i bs))).1 bs, differ)
        (s, ground arith)
]

run_granted :
    (id : SteamId) (cs : List (SteamId × Time)) (start : Time) (bs : Buckets)
    → InOrder start cs
    → IsSoundOption start (find_bucket id bs)
    → token * granted id cs bs ≤ allowance start (find_bucket id bs) + (last_time start cs - start)
unfolding granted
run_granted id [] start bs h s = omega arith
run_granted id ((i, t) ∷ cs) start bs h s =
    let s' = IsSoundOption-later start t (find_bucket id bs) h.0 s in
    let bs' = (take_token i t bs).1 in
    omega (
      arith,
      h.0,
      take_token_lem id i t bs s',
      allowance-later start t (find_bucket id bs) h.0 s,
      run_granted id cs t bs' h.1 (take_token_lem id i t bs s').0,
      last_time-InOrder t cs h.1,
    )

-- While the clock does not go back, a sender is granted, from no buckets on and whatever the others
-- send, no more than the burst of 10 messages and one more for every 2 seconds.
pub granted_bound :
    (id : SteamId) (cs : List (SteamId × Time)) (start : Time)
    → InOrder start cs
    → token * granted id cs [] ≤ burst + (last_time start cs - start)
unfolding find_bucket
granted_bound id cs start h = run_granted id cs start [] h tt
