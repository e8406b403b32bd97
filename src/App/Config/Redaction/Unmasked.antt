-- ===== src/App/Config/Redaction/Unmasked.antt =====
-- Names that are not masked at all (src/app/Config.cpp, `redactDsn`).
use mathlib.Core.List.{append_assoc}
use picasso_backend.Base.{
  ℕ, suc, ◌+◌, ◌≡◌, refl, sym, ap, true, false, ◌∷◌, ◌++◌, Option, none, some, Bytes, codes, length,
  length-append, ltb, arith,
}
use picasso_backend.Base.Text.{find_code, rfind_code}
use picasso_backend.App.Config.{or_end, mask_between, redact_uri, redact_dsn}
use picasso_backend.App.Config.Redaction.Search.{
  has_code, shift, shift-some, shift-none, shift-shift, find-scheme, find_code-drop,
  find_code-after, or_end-shift, find_code-path, rfind_code-after, rfind_code-here, rfind_code-host,
  has_code-append, is_path,
}

-- The user, if there is one, and the host with its port.
abbrev pub authority : Option Bytes → Bytes → Bytes
authority none host = host
authority (some user) host = user ++ (64 ∷ host)

-- Whether the parts are what they are taken for: only the path has slashes, no at sign is in the
-- host, and no colon in the user; without a user there is no at sign in front of the host either.
abbrev pub HasNoPassword : Bytes → Option Bytes → Bytes → Bytes → Type 0
HasNoPassword scheme none host path =
    (has_code 58 scheme ≡ false)
    × (has_code 64 scheme ≡ false)
    × (has_code 47 host ≡ false)
    × (has_code 64 host ≡ false)
    × (is_path path ≡ true)
HasNoPassword scheme (some user) host path =
    (has_code 58 scheme ≡ false)
    × (has_code 58 user ≡ false)
    × (has_code 47 user ≡ false)
    × (has_code 47 host ≡ false)
    × (has_code 64 host ≡ false)
    × (is_path path ≡ true)

-- Where the authority ends.
authority_end :
    (head body path : Bytes)
    → has_code 47 body ≡ false
    → is_path path ≡ true
    → or_end (length (head ++ (body ++ path))) (find_code 47 (length head) (head ++ (body ++ path)))
      ≡ length head + length body
authority_end head body path no_slash p =
    rw
      (
        find_code-drop 47 head (body ++ path),
        length-append head (body ++ path),
        or_end-shift (length head) (length (body ++ path)) (find_code 47 0 (body ++ path)),
        find_code-path body path no_slash p,
      )
      refl

-- A colon after the at sign masks nothing.
colon_after :
    (dsn : Bytes) (start at : ℕ) (o : Option ℕ)
    → mask_between dsn start (some at) (shift at o) ≡ dsn
colon_after dsn start at none = rw (shift-none at) refl
colon_after dsn start at (some i) =
    let later : ltb (at + i) at ≡ false = ground arith in rw (shift-some at i, later) (ground arith)

module _ (head host path : Bytes) (h' : has_code 64 host ≡ false) (h : has_code 47 host ≡ false)
    (p : is_path path ≡ true) where
  userless :
      (end : ℕ)
      → end + 3 ≡ length head
      → has_code 64 head ≡ false
      → redact_uri (head ++ (host ++ path)) end ≡ head ++ (host ++ path)
  unfolding redact_uri
  userless end at_head no_at =
      rw
        (
          at_head,
          authority_end head host path h p,
          rfind_code-after 64 (length host) head (host ++ path) no_at
              (rfind_code-host host path h' p),
        )
        refl

  with_user :
      (user : Bytes) (end : ℕ)
      → end + 3 ≡ length head
      → has_code 58 user ≡ false
      → has_code 47 user ≡ false
      → redact_uri (head ++ (user ++ (64 ∷ (host ++ path)))) end
        ≡ head ++ (user ++ (64 ∷ (host ++ path)))
  unfolding redact_uri
  with_user user end at_head u u' =
      let rest = 64 ∷ (host ++ path) in
      let dsn = head ++ (user ++ rest) in
      let body = user ++ (64 ∷ host) in
      let split : head ++ (body ++ path) ≡ dsn =
        ap (head ++◌) (append_assoc user (64 ∷ host) path) in
      let no_slash : has_code 47 body ≡ false =
        rw (has_code-append 47 user (64 ∷ host), u', h) refl in
      let position : length head + length user ≡ length (head ++ user) =
        sym (length-append head user) in
      let ends : or_end (length dsn) (find_code 47 (length head) dsn)
          ≡ length (head ++ user) + suc (length host) =
        rw (← split, authority_end head body path no_slash p)
          (omega (arith, length-append user (64 ∷ host), length-append head user)) in
      let at : rfind_code 64 (length (head ++ user) + suc (length host)) dsn
          ≡ some (length (head ++ user)) =
        rw (← append_assoc head user rest) (
          rfind_code-here 64 (length host) (head ++ user) (host ++ path)
            (rfind_code-host host path h' p)) in
      let colon : find_code 58 (length head) dsn
          ≡ shift (length (head ++ user)) (find_code 58 0 rest) =
        rw
          (
            find_code-drop 58 head (user ++ rest),
            find_code-after 58 user rest u,
            shift-shift (length head) (length user) (find_code 58 0 rest),
            position,
          )
          refl in
      rw (at_head, ends, at, colon)
        (colon_after dsn (length head) (length (head ++ user)) (find_code 58 0 rest))

-- A data source name with `://` whose authority has no password is logged as it is, whatever else is
-- in it: behind the `://` there are only the host with its port, or a user without a colon and the
-- host, and then the path with the query, in which a password may be given too. Only the path has
-- slashes, the host has no at sign, and in front of the `://` there is no colon, nor an at sign
-- where there is no user.
pub redact_dsn-unmasked :
    (scheme : Bytes) (user : Option Bytes) (host path : Bytes)
    → HasNoPassword scheme user host path
    → redact_dsn (scheme ++ (codes "://" ++ (authority user host ++ path)))
      ≡ scheme ++ (codes "://" ++ (authority user host ++ path))
unfolding redact_dsn
redact_dsn-unmasked scheme none host path (s, s', h, h', p) =
    let head = scheme ++ codes "://" in
    let counted : length scheme + 3 ≡ length head =
      omega (arith, length-append scheme (codes "://")) in
    let no_at : has_code 64 head ≡ false = rw (has_code-append 64 scheme (codes "://"), s') refl in
    rw (find-scheme scheme (host ++ path) s, sym (append_assoc scheme (codes "://") (host ++ path)))
      (userless head host path h' h p (length scheme) counted no_at)
redact_dsn-unmasked scheme (some user) host path (s, u, u', h, h', p) =
    let head = scheme ++ codes "://" in
    let counted : length scheme + 3 ≡ length head =
      omega (arith, length-append scheme (codes "://")) in
    let text = user ++ (64 ∷ (host ++ path)) in
    rw
      (
        append_assoc user (64 ∷ host) path,
        find-scheme scheme text s,
        sym (append_assoc scheme (codes "://") text),
      )
      (with_user head host path h' h p user (length scheme) counted u u')
