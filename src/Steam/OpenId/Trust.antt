-- ===== src/Steam/OpenId/Trust.antt =====
-- When a login is believed (src/steam/OpenIdVerifier.cpp, `verify`).
use picasso_backend.Base.{
  ℕ, ◌≡◌, refl, sym, ◌∙◌, Bool, true, false, [], ◌∷◌, Option, none, some, Bytes, bytes_beq_iff,
  bytes_eq, ◌==◌, codes, if◌then◌else◌, arith, inl, inr, Bool-cases,
}
use picasso_backend.Base.Table.{select}
use picasso_backend.Domain.Ids.{SteamId}
use picasso_backend.Steam.OpenId.{
  Params, find, assign, is_openid, openid_params, verify_params, build_form_body, is_confirmed,
  is_refusal, claimed_steam_id, verify,
}

find-assign :
    (k key value : Bytes) (ps : Params)
    → find k (assign key value ps) ≡ (if key == k then some value else find k ps)
unfolding find assign
find-assign k key value [] = ground arith
find-assign k key value ((j, v) ∷ ps) =
    ground (
      arith,
      find-assign k key value ps,
      bytes_beq_iff j key,
      bytes_beq_iff j k,
      bytes_beq_iff key k,
    )

find-select :
    (p : Bytes → Bool) (k : Bytes) (ps : Params)
    → find k (select (λ e. p e.0) ps) ≡ (if p k then find k ps else none)
unfolding find select
find-select p k [] = ground arith
find-select p k ((j, v) ∷ ps) = ground (arith, find-select p k ps, bytes_beq_iff j k)

-- An identity is accepted only if Steam has answered the question about this very assertion with
-- status 200 and a text that contains is_valid:true; the identity is the number after the last
-- slash of the claimed id. What Steam is asked about are the openid parameters of the assertion
-- with their values and no others, except that the mode is check_authentication.
pub verify-confirmed :
    (post : Bytes → Option (ℕ × Option Bytes)) (params : Params) (id : SteamId)
    → verify post params ≡ some id
    → (is_confirmed (post (build_form_body (verify_params params))) ≡ true)
      × (is_refusal params ≡ false)
      × (claimed_steam_id (find (codes "openid.claimed_id") params) ≡ some id)
      × ((k : Bytes)
          → find k (verify_params params) ≡ (
              if codes "openid.mode" == k
              then some (codes "check_authentication")
              else if is_openid k
              then find k params
              else none))
unfolding verify verify_params openid_params
verify-confirmed post params id h =
    let accepted : is_refusal params ≡ false
        → is_confirmed (post (build_form_body (verify_params params))) ≡ true
        → verify post params ≡ claimed_steam_id (find (codes "openid.claimed_id") params) =
      λ g c. rw (g, c) refl in
    elim (Bool-cases (is_refusal params)) [
      | inl refused ↦ ground (arith, h, refused)
      | inr going ↦
          elim (Bool-cases (is_confirmed (post (build_form_body (verify_params params))))) [
            | inl confirmed ↦ (
              confirmed,
              going,
              sym (accepted going confirmed) ∙ h,
              (λ k.
                  rw
                    (
                      find-assign k (codes "openid.mode") (codes "check_authentication")
                          (openid_params params),
                      find-select is_openid k params,
                    )
                    refl),
            )
            | inr unconfirmed ↦ ground (arith, h, going, unconfirmed)
          ]
    ]
