-- ===== src/Steam/OpenId.antt =====
-- The OpenID relying party (src/steam/OpenIdVerifier.cpp). The POST to Steam is an argument: from
-- the body to the status and the text of the answer, or nothing where it throws. A `std::map` is
-- an association list in the order of its keys.
pub mod Trust
use picasso_backend.Base.{
  ℕ, ◌/◌, ◌%◌, Bool, true, false, not, ◌||◌, List, [], ◌∷◌, ◌++◌, Option, none, some, Bytes,
  bytes_eq, nat_eq, ◌==◌, codes, is_empty, nat_beq, some_and, if◌then◌else◌,
}
use picasso_backend.Base.Table.{select}
use picasso_backend.Base.Text.{nth_code, starts_with, contains, after_last, is_alnum, text_ltb}
use picasso_backend.Base.Numerals.{stoull}
use picasso_backend.Domain.Ids.{SteamId}

abbrev pub Params : Type 0
Params = List (Bytes × Bytes)

unfoldable pub find : Bytes → Params → Option Bytes
find key [] = none
find key ((k, v) ∷ rest) = if k == key then some v else find key rest

-- `params[key] = value`
unfoldable pub assign : Bytes → Bytes → Params → Params
assign key value [] = (key, value) ∷ []
assign key value ((k, v) ∷ rest) =
    let later = assign key value rest in
    if k == key
    then (key, value) ∷ rest
    else if text_ltb key k
    then (key, value) ∷ (k, v) ∷ rest
    else (k, v) ∷ later

abbrev pub upper_hex : ℕ → ℕ
upper_hex n = nth_code n (codes "0123456789ABCDEF")

abbrev pub is_unreserved : ℕ → Bool
is_unreserved c = is_alnum c || nat_beq c 45 || nat_beq c 95 || nat_beq c 46 || nat_beq c 126

unfoldable pub percent_encode : Bytes → Bytes
percent_encode [] = []
percent_encode (c ∷ cs) =
    let rest = percent_encode cs in
    if is_unreserved c then c ∷ rest else 37 ∷ upper_hex (c / 16) ∷ upper_hex (c % 16) ∷ rest

abbrev pub form_field : Bytes × Bytes → Bytes
form_field (key, value) = percent_encode key ++ 61 ∷ percent_encode value

-- The fields after the first.
unfoldable pub more_fields : Params → Bytes
unfolding percent_encode
more_fields [] = []
more_fields (p ∷ ps) = 38 ∷ form_field p ++ more_fields ps

unfoldable pub build_form_body : Params → Bytes
unfolding more_fields percent_encode
build_form_body [] = []
build_form_body (p ∷ ps) = form_field p ++ more_fields ps

unfoldable pub return_to : Bytes → Bytes → Bytes
unfolding percent_encode
return_to public_url state =
    if is_empty state
    then public_url ++ codes "/auth/steam/return"
    else public_url ++ codes "/auth/steam/return?state=" ++ percent_encode state

unfoldable pub build_auth_url : Bytes → Bytes → Bytes
unfolding return_to
build_auth_url public_url state =
    codes "https://"
    ++ codes "steamcommunity.com"
    ++ codes "/openid/login"
    ++ codes "?"
    ++ codes "openid.ns="
    ++ percent_encode (codes "http://specs.openid.net/auth/2.0")
    ++ codes "&openid.mode=checkid_setup"
    ++ codes "&openid.return_to="
    ++ percent_encode (return_to public_url state)
    ++ codes "&openid.realm="
    ++ percent_encode public_url
    ++ codes "&openid.identity="
    ++ percent_encode (codes "http://specs.openid.net/auth/2.0/identifier_select")
    ++ codes "&openid.claimed_id="
    ++ percent_encode (codes "http://specs.openid.net/auth/2.0/identifier_select")

unfoldable pub is_openid : Bytes → Bool
is_openid key = starts_with (codes "openid.") key

unfoldable pub openid_params : Params → Params
openid_params params = select (λ p. is_openid p.0) params

-- What is sent back to Steam.
unfoldable pub verify_params : Params → Params
unfolding openid_params assign
verify_params params =
    assign (codes "openid.mode") (codes "check_authentication") (openid_params params)

abbrev pub id_after_slash : Option Bytes → Option SteamId
id_after_slash none = none
id_after_slash (some digits) = stoull digits

abbrev pub claimed_steam_id : Option Bytes → Option SteamId
claimed_steam_id none = none
claimed_steam_id (some claimed_id) = id_after_slash (after_last 47 claimed_id)

-- Whether Steam says that the assertion is its own.
abbrev pub is_confirmed : Option (ℕ × Option Bytes) → Bool
is_confirmed none = false
is_confirmed (some (status, text)) =
    if nat_beq status 200 then some_and (contains (codes "is_valid:true")) text else false

abbrev pub is_refusal : Params → Bool
is_refusal params = some_and (λ mode. mode == codes "error") (find (codes "openid.mode") params)

unfoldable pub verify : (Bytes → Option (ℕ × Option Bytes)) → Params → Option SteamId
unfolding find verify_params build_form_body
verify post params =
    if is_refusal params
    then none
    else if is_confirmed (post (build_form_body (verify_params params)))
    then claimed_steam_id (find (codes "openid.claimed_id") params)
    else none
