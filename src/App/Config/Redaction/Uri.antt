-- ===== src/App/Config/Redaction/Uri.antt =====
-- The URI form of a data source name: the password is masked and the rest is kept
-- (src/app/Config.cpp, `redactDsn`).
use mathlib.Core.List.{append_assoc}
use picasso_backend.Base.{
  ℕ, suc, ◌+◌, ◌≡◌, refl, sym, ap, ◌∙◌, true, false, [], ◌∷◌, ◌++◌, some, Bytes, codes, length,
  take, drop, length-append, take-append, drop-append, leb, ltb, arith,
}
use picasso_backend.Base.Text.{find_code, rfind_code}
use picasso_backend.App.Config.{mask, or_end, mask_between, redact_uri, redact_dsn}
use picasso_backend.App.Config.Redaction.Search.{
  has_code, shift, shift-some, find-scheme, find_code-drop, find_code-first, or_end-shift,
  find_code-path, rfind_code-here, rfind_code-host, has_code-append, is_path,
}

-- A name in this form, in front of which is the scheme; its host may have a port.
abbrev pub user_at : Bytes → Bytes → Bytes → Bytes
user_at user password rest = user ++ (58 ∷ (password ++ (64 ∷ rest)))

user_at-append :
    (user password host path : Bytes)
    → user_at user password (host ++ path) ≡ user_at user password host ++ path
user_at-append user password host path = sym (
    append_assoc user (58 ∷ (password ++ (64 ∷ host))) path
    ∙ ap (λ t. user ++ (58 ∷ t)) (append_assoc password (64 ∷ host) path))

has_code-user_at :
    (user password host : Bytes)
    → has_code 47 user ≡ false
    → has_code 47 password ≡ false
    → has_code 47 host ≡ false
    → has_code 47 (user_at user password host) ≡ false
has_code-user_at user password host u p h =
    rw
      (
        has_code-append 47 user (58 ∷ (password ++ (64 ∷ host))),
        u,
        has_code-append 47 password (64 ∷ host),
        p,
        h,
      )
      refl

length-user_at :
    (user password host : Bytes)
    → length (user_at user password host) ≡ length user + length password + length host + 2
length-user_at user password host =
    omega (
      arith,
      length-append user (58 ∷ (password ++ (64 ∷ host))),
      length-append password (64 ∷ host),
    )

module _ (head user password host path : Bytes) where
  abbrev dsn : Bytes
  dsn = head ++ user_at user password (host ++ path)

  -- Up to the at sign.
  abbrev before_at : Bytes
  before_at = head ++ (user ++ (58 ∷ password))

  abbrev up_to_colon : Bytes
  up_to_colon = head ++ (user ++ (58 ∷ []))

  split_at : dsn ≡ before_at ++ (64 ∷ (host ++ path))
  split_at = sym (
      append_assoc head (user ++ (58 ∷ password)) (64 ∷ (host ++ path))
      ∙ ap (head ++◌) (append_assoc user (58 ∷ password) (64 ∷ (host ++ path))))

  split_colon : dsn ≡ up_to_colon ++ (password ++ (64 ∷ (host ++ path)))
  split_colon = sym (
      append_assoc head (user ++ (58 ∷ [])) (password ++ (64 ∷ (host ++ path)))
      ∙ ap (head ++◌) (append_assoc user (58 ∷ []) (password ++ (64 ∷ (host ++ path)))))

  length-before_at : length before_at ≡ length head + length user + length password + 1
  length-before_at =
      omega
        (arith, length-append head (user ++ (58 ∷ password)), length-append user (58 ∷ password))

  length-up_to_colon : length up_to_colon ≡ length head + length user + 1
  length-up_to_colon =
      omega (arith, length-append head (user ++ (58 ∷ [])), length-append user (58 ∷ []))

  colon_found :
      has_code 58 user ≡ false → find_code 58 (length head) dsn ≡ some (length head + length user)
  colon_found u =
      find_code-drop 58 head (user_at user password (host ++ path))
      ∙ ap (shift (length head)) (find_code-first 58 user (password ++ (64 ∷ (host ++ path))) u)
      ∙ shift-some (length head) (length user)

  authority_ends :
      has_code 47 (user_at user password host) ≡ false
      → is_path path ≡ true
      → or_end (length dsn) (find_code 47 (length head) dsn) ≡ length before_at + suc (length host)
  authority_ends no_slash p =
      let body = user_at user password host in
      rw
        (
          user_at-append user password host path,
          find_code-drop 47 head (body ++ path),
          length-append head (body ++ path),
          or_end-shift (length head) (length (body ++ path)) (find_code 47 0 (body ++ path)),
          find_code-path body path no_slash p,
          length-user_at user password host,
          length-before_at,
        )
        (omega arith)

  at_found :
      has_code 64 host ≡ false
      → is_path path ≡ true
      → rfind_code 64 (length before_at + suc (length host)) dsn ≡ some (length before_at)
  at_found h p =
      rw split_at
        (rfind_code-here 64 (length host) before_at (host ++ path) (rfind_code-host host path h p))

  masked :
      mask_between dsn (length head) (some (length before_at)) (some (length head + length user))
      ≡ up_to_colon ++ mask ++ (64 ∷ (host ++ path))
  masked =
      let after : leb (length head) (length before_at) ≡ true = ground (arith, length-before_at) in
      let before : ltb (length head + length user) (length before_at) ≡ true =
        ground (arith, length-before_at) in
      let kept : take (length head + length user + 1) dsn ≡ up_to_colon =
        rw (← length-up_to_colon, split_colon)
          (take-append up_to_colon (password ++ (64 ∷ (host ++ path)))) in
      let rest : drop (length before_at) dsn ≡ 64 ∷ (host ++ path) =
        rw split_at (drop-append before_at (64 ∷ (host ++ path))) in
      rw (after, before, kept, rest) refl

  redact_uri-masked :
      (end : ℕ)
      → end + 3 ≡ length head
      → has_code 58 user ≡ false
      → has_code 47 (user_at user password host) ≡ false
      → has_code 64 host ≡ false
      → is_path path ≡ true
      → redact_uri dsn end ≡ up_to_colon ++ mask ++ (64 ∷ (host ++ path))
  unfolding redact_uri
  redact_uri-masked end at_head u no_slash h p =
      rw (at_head, authority_ends no_slash p, at_found h p, colon_found u) masked

-- The URI form keeps everything but the password, in place of which there are three stars: the
-- scheme, the user, the host with its port and the path, with the query.
pub redact_dsn-uri :
    (scheme user password host path : Bytes)
    → has_code 58 scheme ≡ false
    → has_code 58 user ≡ false
    → has_code 47 user ≡ false
    → has_code 47 password ≡ false
    → has_code 47 host ≡ false
    → has_code 64 host ≡ false
    → is_path path ≡ true
    → redact_dsn (scheme ++ (codes "://" ++ user_at user password (host ++ path)))
      ≡ scheme ++ (codes "://" ++ user_at user (codes "***") (host ++ path))
unfolding redact_dsn mask
redact_dsn-uri scheme user password host path s u u' p h h' on =
    let head = scheme ++ codes "://" in
    let no_slash = has_code-user_at user password host u' p h in
    let counted : length scheme + 3 ≡ length head =
      omega (arith, length-append scheme (codes "://")) in
    let text = user_at user password (host ++ path) in
    rw
      (
        find-scheme scheme text s,
        sym (append_assoc scheme (codes "://") text),
        redact_uri-masked head user password host path (length scheme) counted u no_slash h' on,
      )
      (simp append_assoc)
