-- ===== src/Transport/Http/Assets.antt =====
-- The fixed pages and which files of the static ones can be asked for
-- (src/transport/http/HealthController.hpp). The reading of a file is an argument; of the headers
-- only the content type is modelled.
use picasso_backend.Base.{
  ◌-◌, ◌≡◌, refl, Bool, true, false, not, ◌&&◌, ◌||◌, [], ◌∷◌, ◌++◌, Option, none, some, Bytes,
  bytes_eq, ◌==◌, codes, length, drop, leb, nat_beq, if◌then◌else◌, arith, inl, inr, Bool-cases,
}
use picasso_backend.Base.Text.{contains, is_alnum}
use picasso_backend.Transport.Http.Reply.{Reply, response, http_error, text_body}

abbrev pub is_plain : Bytes → Bool
is_plain [] = true
is_plain (c ∷ cs) = (is_alnum c || nat_beq c 95 || nat_beq c 45 || nat_beq c 46) && is_plain cs

unfoldable pub is_safe_asset_name : Bytes → Bytes → Bool
is_safe_asset_name file_name extension =
    if leb (length file_name) (length extension)
    then false
    else if not (drop (length file_name - length extension) file_name == extension)
    then false
    else if not (is_plain file_name)
    then false
    else not (contains (codes "..") file_name)

abbrev pub asset_reply : Bytes → Option Bytes → Reply
asset_reply content_type none = http_error 404 (codes "not found")
asset_reply content_type (some file) = response 200 (text_body content_type file)

module _ (static_root : Bytes) (load_from_file : Bytes → Option Bytes) where
  unfoldable pub serve_static_asset : Option Bytes → Bytes → Bytes → Bytes → Reply
  unfolding is_safe_asset_name
  serve_static_asset none subdir extension content_type = http_error 404 (codes "not found")
  serve_static_asset (some name) subdir extension content_type =
      if is_safe_asset_name name extension
      then asset_reply content_type (load_from_file (static_root ++ 47 ∷ subdir ++ 47 ∷ name))
      else http_error 404 (codes "not found")

abbrev pub html : Bytes
html = codes "text/html; charset=utf-8"

abbrev pub page_reply : Bytes → Option Bytes → Reply
page_reply missing none = http_error 404 missing
page_reply missing (some file) = response 200 (text_body html file)

unfoldable pub ping : Reply
ping = response 200 (text_body (codes "text/plain; charset=utf-8") (codes "pong"))

-- The endpoints; a name in the URL is of an asset.
pub data PageRequest : Type 0 where
  get_ping get_root get_docs : PageRequest
  get_css get_js : (name : Option Bytes) → PageRequest

module _ (static_root : Bytes) (load_from_file : Bytes → Option Bytes) where
  unfoldable pub root : Reply
  root =
      page_reply (codes "index.html not found")
        (load_from_file (static_root ++ codes "/index.html"))

  unfoldable pub docs : Reply
  docs =
      page_reply (codes "docs.html not found") (load_from_file (static_root ++ codes "/docs.html"))

  unfoldable pub static_css : Option Bytes → Reply
  unfolding serve_static_asset
  static_css name =
      serve_static_asset static_root load_from_file name (codes "css") (codes ".css")
        (codes "text/css; charset=utf-8")

  unfoldable pub static_js : Option Bytes → Reply
  unfolding serve_static_asset
  static_js name =
      serve_static_asset static_root load_from_file name (codes "js") (codes ".js")
        (codes "text/javascript; charset=utf-8")

  unfoldable pub serve_page : PageRequest → Reply
  unfolding ping root docs static_css static_js
  serve_page get_ping = ping
  serve_page get_root = root
  serve_page get_docs = docs
  serve_page (get_css name) = static_css name
  serve_page (get_js name) = static_js name

slash-free : (cs : Bytes) → is_plain cs ≡ true → contains (codes "/") cs ≡ false
slash-free [] h = refl
slash-free (c ∷ cs) h = ground (arith, h, slash-free cs)

safe_parts :
    (name extension : Bytes)
    → is_safe_asset_name name extension ≡ true
    → (leb (length name) (length extension) ≡ false)
      × (is_plain name ≡ true)
      × (contains (codes "..") name ≡ false)
unfolding is_safe_asset_name
safe_parts name extension h = (ground (arith, h), ground (arith, h), ground (arith, h))

module _ (static_root : Bytes) (load load' : Bytes → Option Bytes) where
  serve_static_asset-confined :
      (name : Option Bytes) (subdir extension content_type : Bytes)
      → ((plain : Bytes)
          → contains (codes "/") plain ≡ false
          → contains (codes "..") plain ≡ false
          → leb (length plain) (length extension) ≡ false
          → load (static_root ++ 47 ∷ subdir ++ 47 ∷ plain)
            ≡ load' (static_root ++ 47 ∷ subdir ++ 47 ∷ plain))
      → serve_static_asset static_root load name subdir extension content_type
        ≡ serve_static_asset static_root load' name subdir extension content_type
  unfolding serve_static_asset is_safe_asset_name
  serve_static_asset-confined none subdir extension content_type same = refl
  serve_static_asset-confined (some name) subdir extension content_type same =
      elim (Bool-cases (is_safe_asset_name name extension)) [
        | inl safe ↦
            let (long, plain, dotless) = safe_parts name extension safe in
            rw (safe, same name (slash-free name plain) dotless long) refl
        | inr unsafe ↦ rw unsafe refl
      ]

  -- A file that can be public: one of the two pages, or one in the directory of the style sheets
  -- or of the scripts, under a name without a slash and without two dots in a row.
  pub data IsPublic : Bytes → Type 0 where
    page_index : IsPublic (static_root ++ codes "/index.html")
    page_docs : IsPublic (static_root ++ codes "/docs.html")
    style :
        (plain : Bytes)
        → contains (codes "/") plain ≡ false
        → contains (codes "..") plain ≡ false
        → IsPublic (static_root ++ 47 ∷ codes "css" ++ 47 ∷ plain)
    script :
        (plain : Bytes)
        → contains (codes "/") plain ≡ false
        → contains (codes "..") plain ≡ false
        → IsPublic (static_root ++ 47 ∷ codes "js" ++ 47 ∷ plain)

  -- Whatever is asked for, only public files are ever read: two file systems that have the same
  -- index and documentation page, and the same files directly in the directories of the style
  -- sheets and of the scripts under names without a slash and without two dots in a row, give the
  -- same answer to every request.
  pub serve_page-confined :
      (request : PageRequest)
      → ((path : Bytes) → IsPublic path → load path ≡ load' path)
      → serve_page static_root load request ≡ serve_page static_root load' request
  unfolding serve_page root docs static_css static_js
  serve_page-confined get_ping same = refl
  serve_page-confined get_root same = rw (same _ page_index) refl
  serve_page-confined get_docs same = rw (same _ page_docs) refl
  serve_page-confined (get_css name) same =
      serve_static_asset-confined name (codes "css") (codes ".css")
        (codes "text/css; charset=utf-8") (λ plain s d l. same _ (style plain s d))
  serve_page-confined (get_js name) same =
      serve_static_asset-confined name (codes "js") (codes ".js")
        (codes "text/javascript; charset=utf-8") (λ plain s d l. same _ (script plain s d))
