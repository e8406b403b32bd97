-- ===== src/Service/Chat/Rate.antt =====
-- The token buckets of the senders (src/service/ChatService.cpp, `takeToken`). A bucket counts
-- 2,000ths of a token, of which one millisecond brings one at 30 tokens a minute, in place of the
-- floating-point number of tokens; the arithmetic is exact.
use picasso_backend.Base.{
  ℕ, ◌*◌, Bool, true, false, List, [], ◌∷◌, Option, none, some, ◌==◌, nat_eq, if◌then◌else◌,
}
use picasso_backend.Base.Int.{ℤ, pos, negsuc, ltb_ℤ, sub_ℕ, ◌+ℤ◌, min_ℤ}
use picasso_backend.Domain.Ids.{SteamId, Time}
use picasso_backend.Domain.Message.{chat_rate_burst}

pub record Bucket : Type 0 where
  pub tokens : ℤ
  pub refilled_at_epoch_ms : Time

abbrev pub Buckets : Type 0
Buckets = List (SteamId × Bucket)

abbrev pub token : ℕ
token = 2000

abbrev pub burst : ℕ
burst = chat_rate_burst * token

unfoldable pub refill : Time → Bucket → Bucket
refill now b = record {
  tokens = min_ℤ (pos burst) (b.tokens +ℤ sub_ℕ now b.refilled_at_epoch_ms);
  refilled_at_epoch_ms = now;
}

unfoldable pub spend : Bucket → Bool × Bucket
spend b =
    if ltb_ℤ b.tokens (pos token)
    then (false, b)
    else (true, record b { tokens = b.tokens +ℤ negsuc 1999 })

unfoldable pub find_bucket : SteamId → Buckets → Option Bucket
find_bucket id [] = none
find_bucket id ((i, b) ∷ bs) = if i == id then some b else find_bucket id bs

unfoldable pub put_bucket : SteamId → Bucket → Buckets → Buckets
put_bucket id b [] = (id, b) ∷ []
put_bucket id b ((i, c) ∷ bs) = if i == id then (i, b) ∷ bs else (i, c) ∷ put_bucket id b bs

-- The bucket at the time of a call: a new one is full.
unfoldable pub bucket_at : Time → Option Bucket → Bucket
unfolding refill
bucket_at now none = record { tokens = pos burst; refilled_at_epoch_ms = now }
bucket_at now (some b) = refill now b

unfoldable pub take_token : SteamId → Time → Buckets → Bool × Buckets
unfolding find_bucket put_bucket bucket_at spend
take_token sender now bs =
    let (granted, b) = spend (bucket_at now (find_bucket sender bs)) in
    (granted, put_bucket sender b bs)
