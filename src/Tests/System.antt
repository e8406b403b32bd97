-- ===== src/Tests/System.antt =====
-- The system as a whole on a small input (src/app).
use picasso_backend.Base.{List, [], ◌∷◌, some, codes}
use picasso_backend.App.System.{
  Action, http_request, login_return, login_poll, ws_frame, System, database, act_all,
}
use picasso_backend.App.System.Invariant.{IsHealthy, act_all-IsHealthy}
use picasso_backend.Tests.Contacts as Contacts
use picasso_backend.Tests.Login as Login
use picasso_backend.Tests.Serving as Serving
use picasso_backend.Tests.Text as Text
use picasso_backend.Transport.Http.Api.{put_level}

abbrev allied : System
allied = record { chat = record { world = Contacts.allies; buckets = [] }; pending = [] }

allied-IsHealthy : IsHealthy (database allied)
unfolding Contacts.program
allied-IsHealthy = record {
  social = Contacts.allies-Social;
  message_log = record { in_order = tt; all_below = tt; keyed = tt };
}

-- User 1 blocks user 2 while user 7 logs in and polls for the token.
abbrev actions : List Action
actions =
    http_request (put_level (some (codes "2")) (record { level = some (codes "imposter") }))
      (some 1) Text.times
    ∷ login_return Login.steam (some (171 ∷ [])) Login.query 100 100
    ∷ login_poll (some (codes "ab")) 101
    ∷ ws_frame Serving.mapper Serving.all_alive Serving.hub Serving.session (2 ∷ []) 102 102
    ∷ []

act_all-IsHealthy_example : IsHealthy (database (act_all Login.last_byte [] actions allied))
act_all-IsHealthy_example = act_all-IsHealthy Login.last_byte [] actions allied allied-IsHealthy
