-- ===== src/Tests/Text.antt =====
-- The HTTP endpoints, the assets and the log on small inputs (src/transport/http, src/logger).
use picasso_backend.Base.{◌≡◌, ◌⊎◌, refl, [], Option, none, some, Bytes, codes}
use picasso_backend.Service.World.{World}
use picasso_backend.Transport.Http.Api.{Clock, handle, post_request}
use picasso_backend.Transport.Http.Api.Refusals.{Joinable, id_taken, dm_refused, handle-atomic}
use picasso_backend.Transport.Http.Assets.{serve_static_asset, is_safe_asset_name}
use picasso_backend.Transport.Http.Reply.{http_error, require_identity}
use picasso_backend.Transport.Http.{parse_steam_id, parse_unsigned, parse_digits}
use picasso_backend.Transport.Http.ContactController as ContactController
use picasso_backend.Logger.ActivityLogger.{csv_escape, log_line}
use picasso_backend.Logger.ActivityLogger.Reading.{read}
use picasso_backend.Tests.Chat as Chat

program : Unit {0}
unfolding Chat.program handle require_identity serve_static_asset is_safe_asset_name csv_escape
    log_line read ContactController.send_request ContactController.send_request_to parse_steam_id
    parse_unsigned parse_digits
program = tt

abbrev no_files : Bytes → Option Bytes
no_files path = none

abbrev passwords : Bytes → Option Bytes
passwords path = some []

-- Dots lead nowhere.
up_refused :
    serve_static_asset [] passwords (some (codes "../x.css")) (codes "css") (codes ".css") []
    ≡ http_error 404 (codes "not found")
unfolding program
up_refused = refl

abbrev pub times : Clock
times = record { first = 100; second = 100; third = 100; fourth = 100 }

abbrev quiet : World
quiet = record { db = Chat.room; published = [] }

no_invites : Joinable quiet
unfolding program
no_invites me id now now_read h = cc

handle-atomic_example :
    (handle (post_request (record { steam_id = some (codes "x") })) (some 7) times quiet).0 ≡ quiet
    ⊎ ((handle (post_request (record { steam_id = some (codes "x") })) (some 7) times quiet).0
        ≡ id_taken quiet)
      × ((handle (post_request (record { steam_id = some (codes "x") })) (some 7) times quiet).1
          ≡ dm_refused)
unfolding program
handle-atomic_example =
    handle-atomic (post_request (record { steam_id = some (codes "x") })) (some 7) times quiet
      no_invites refl
