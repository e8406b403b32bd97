-- ===== src/App/Config/Redaction/Keywords.antt =====
-- The keyword/value form of a data source name: the password is masked and the rest is kept
-- (src/app/Config.cpp, `redactDsn`).
use mathlib.Core.List.{append_assoc}
use picasso_backend.Base.{
  ℕ, zero, suc, ◌+◌, ◌≤◌, ◌≡◌, refl, ap, Bool, true, false, not, ◌||◌, [], ◌∷◌, ◌++◌, Bytes, codes,
  length, length-append, nat_beq, if◌then◌else◌, arith, inl, inr, Bool-cases, or_parts, and_false,
}
use picasso_backend.Base.Numerals.{is_space}
use picasso_backend.Base.Text.{contains, starts_with}
use picasso_backend.App.Config.{
  Past, skip_quoted, skip_bare, skip_close, skip_value, redact_keywords, redact_dsn,
}
use picasso_backend.App.Config.Redaction.Search.{find-none}

-- A name in which a value is in quotation marks, with the escapes that it needs, or is not.
abbrev pub escape : Bytes → Bytes
escape [] = []
escape (c ∷ cs) = if nat_beq c 39 || nat_beq c 92 then 92 ∷ c ∷ escape cs else c ∷ escape cs

abbrev pub written : Bool → Bytes → Bytes
written true password = 39 ∷ (escape password ++ 39 ∷ [])
written false password = password

abbrev pub has_space : Bytes → Bool
has_space [] = false
has_space (c ∷ cs) = is_space c || has_space cs

abbrev pub quote_first : Bytes → Bool
quote_first [] = false
quote_first (c ∷ cs) = nat_beq c 39

-- Whether a value can be written so.
abbrev pub fits : Bool → Bytes → Bool
fits true password = true
fits false password = not (has_space password || quote_first password)

-- Nothing, or a text that ends with a space.
abbrev pub ends_token : Bytes → Bool
ends_token [] = true
ends_token (c ∷ []) = is_space c
ends_token (c ∷ d ∷ cs) = ends_token (d ∷ cs)

-- Nothing, or a text that starts with a space.
abbrev pub starts_token : Bytes → Bool
starts_token [] = true
starts_token (c ∷ cs) = is_space c

redact_keywords-copy :
    (fuel : ℕ) (start : Bool) (text : Bytes)
    → length text ≤ fuel
    → contains (codes "password=") text ≡ false
    → redact_keywords fuel start text ≡ text
unfolding redact_keywords
redact_keywords-copy zero start [] enough h = refl
redact_keywords-copy zero start (c ∷ cs) enough h = absurd (omega arith)
redact_keywords-copy (suc fuel) start [] enough h = refl
redact_keywords-copy (suc fuel) start (c ∷ cs) enough h =
    elim (Bool-cases (starts_with (codes "password=") (c ∷ cs))) [
      | inl key ↦ ground (arith, h, key)
      | inr other ↦
          rw
            (
              other,
              and_false start,
              redact_keywords-copy fuel (is_space c) cs (omega arith) (rw other at h),
            )
            refl
    ]

-- What does not begin in front of a space does not begin there with more after the space.
starts_with-append :
    (part : Bytes) (c : ℕ) (cs rest : Bytes)
    → has_space part ≡ false
    → ends_token (c ∷ cs) ≡ true
    → starts_with part (c ∷ cs) ≡ false
    → starts_with part (c ∷ cs ++ rest) ≡ false
starts_with-append [] c cs rest solid ends h = h
starts_with-append (p ∷ ps) c [] rest solid ends h = ground (arith, solid, ends, h)
starts_with-append (p ∷ ps) c (d ∷ cs) rest solid ends h =
    ground (arith, starts_with-append ps d cs rest, solid, ends, h)

not_key :
    (c : ℕ) (cs rest : Bytes)
    → contains (codes "password=") (c ∷ cs) ≡ false
    → ends_token (c ∷ cs) ≡ true
    → starts_with (codes "password=") (c ∷ cs ++ rest) ≡ false
not_key c cs rest none_in ends =
    starts_with-append (codes "password=") c cs rest refl ends
      (or_parts _ (contains (codes "password=") cs) none_in).0

redact_keywords-before :
    (total fuel c : ℕ) (cs rest : Bytes) (start : Bool)
    → total ≡ suc (length cs) + fuel
    → contains (codes "password=") (c ∷ cs) ≡ false
    → ends_token (c ∷ cs) ≡ true
    → redact_keywords total start (c ∷ cs ++ rest) ≡ c ∷ cs ++ redact_keywords fuel true rest
unfolding redact_keywords
redact_keywords-before zero fuel c cs rest start e none_in ends = absurd (omega arith)
redact_keywords-before (suc t) fuel c [] rest start e none_in ends =
    let same : t ≡ fuel = omega arith in
    let no_key = not_key c [] rest none_in ends in rw (no_key, and_false start, same, ends) refl
redact_keywords-before (suc t) fuel c (d ∷ cs) rest start e none_in ends =
    let no_key = not_key c (d ∷ cs) rest none_in ends in
    let later : contains (codes "password=") (d ∷ cs) ≡ false =
      (or_parts (starts_with (codes "password=") (c ∷ d ∷ cs)) _ none_in).1 in
    rw (no_key, redact_keywords-before t fuel d cs rest (is_space c) (omega arith) later ends)
      (ground arith)

skip_quoted-plain :
    (last c : ℕ) (rest : Bytes)
    → (nat_beq c 39 || nat_beq c 92) ≡ false
    → skip_quoted last (c ∷ rest) ≡ skip_quoted c rest
unfolding skip_quoted
skip_quoted-plain last c [] h = ground (arith, h)
skip_quoted-plain last c (d ∷ cs) h = ground (arith, h)

skip_quoted-escape :
    (last : ℕ) (password rest : Bytes)
    → (skip_quoted last (escape password ++ 39 ∷ rest)).1 ≡ 39 ∷ rest
unfolding skip_quoted
skip_quoted-escape last [] [] = refl
skip_quoted-escape last [] (c ∷ cs) = refl
skip_quoted-escape last (c ∷ cs) rest = elim (Bool-cases (nat_beq c 39 || nat_beq c 92)) [
  | inl special ↦ rw (special) (skip_quoted-escape c cs rest)
  | inr plain ↦
      rw (plain, skip_quoted-plain last c (escape cs ++ 39 ∷ rest) plain)
        (skip_quoted-escape c cs rest)
]

skip_close-rest : (p : Past) (c : ℕ) (rest : Bytes) → p.1 ≡ c ∷ rest → (skip_close p).1 ≡ rest
skip_close-rest (last, []) c rest h = cc
skip_close-rest (last, d ∷ cs) c rest h = cc

skip_bare-rest :
    (last : ℕ) (password after : Bytes)
    → has_space password ≡ false
    → starts_token after ≡ true
    → (skip_bare last (password ++ after)).1 ≡ after
unfolding skip_bare
skip_bare-rest last [] [] h token = refl
skip_bare-rest last [] (c ∷ cs) h token = ground (arith, token)
skip_bare-rest last (c ∷ cs) after h token = ground (arith, h, skip_bare-rest c cs after)

skip_value-rest :
    (quoted : Bool) (last : ℕ) (password after : Bytes)
    → fits quoted password ≡ true
    → starts_token after ≡ true
    → (skip_value last (written quoted password ++ after)).1 ≡ after
unfolding skip_value
skip_value-rest true last password after fit token =
    skip_close-rest (skip_quoted 39 ((escape password ++ 39 ∷ []) ++ after)) 39 after
      (rw (append_assoc (escape password) (39 ∷ []) after) (skip_quoted-escape 39 password after))
skip_value-rest false last [] [] fit token = refl
skip_value-rest false last [] (c ∷ cs) fit token =
    ground (arith, token, skip_bare-rest last [] (c ∷ cs))
skip_value-rest false last (c ∷ cs) after fit token =
    ground (arith, fit, skip_bare-rest last (c ∷ cs) after)

-- From a token on, with fuel for the rest of the name.
redact_keywords-value :
    (fuel : ℕ) (quoted : Bool) (password after : Bytes)
    → length after ≤ fuel
    → fits quoted password ≡ true
    → starts_token after ≡ true
    → contains (codes "password=") after ≡ false
    → redact_keywords (suc fuel) true (codes "password=" ++ written quoted password ++ after)
      ≡ codes "password=***" ++ after
unfolding redact_keywords
redact_keywords-value fuel quoted password after enough fit token none_in =
    rw
      (
        skip_value-rest quoted 61 password after fit token,
        redact_keywords-copy fuel _ after enough none_in,
      )
      refl

begin :
    (fuel : ℕ) (before rest : Bytes)
    → contains (codes "password=") before ≡ false
    → ends_token before ≡ true
    → redact_keywords (length before + fuel) true (before ++ rest)
      ≡ before ++ redact_keywords fuel true rest
begin fuel [] rest none_in ends = ap (λ n. redact_keywords n true rest) (omega arith)
begin fuel (c ∷ cs) rest none_in ends =
    redact_keywords-before (length (c ∷ cs) + fuel) fuel c cs rest true (omega arith) none_in ends

-- The keyword/value form keeps everything but the password, of which nothing is left, in
-- quotation marks or not: whatever the password is, only three stars are in its place.
pub redact_dsn-keywords :
    (quoted : Bool) (before password after : Bytes)
    → contains (codes "://") (before ++ (codes "password=" ++ (written quoted password ++ after)))
      ≡ false
    → contains (codes "password=") before ≡ false
    → contains (codes "password=") after ≡ false
    → ends_token before ≡ true
    → starts_token after ≡ true
    → fits quoted password ≡ true
    → redact_dsn (before ++ (codes "password=" ++ (written quoted password ++ after)))
      ≡ before ++ (codes "password=***" ++ after)
unfolding redact_dsn
redact_dsn-keywords quoted before password after no_uri none_in none_after ends token fit =
    let value = written quoted password ++ after in
    let fuel = 8 + length value in
    let enough : length after ≤ fuel =
      omega (arith, length-append (written quoted password) after) in
    let counted : length (before ++ (codes "password=" ++ value)) ≡ length before + suc fuel =
      omega (arith, length-append before (codes "password=" ++ value)) in
    rw
      (
        find-none (codes "://") (before ++ (codes "password=" ++ value)) no_uri,
        counted,
        begin (suc fuel) before (codes "password=" ++ value) none_in ends,
        redact_keywords-value fuel quoted password after enough fit token none_after,
      )
      refl
