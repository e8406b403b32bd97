-- ===== src/Tests/Operations.antt =====
-- The configuration, the start, the log files and the fixed pages on small inputs (src/app,
-- src/logger, src/transport/http/HealthController.hpp).
use picasso_backend.Base.{
  ℕ, ◌≡◌, refl, ap, true, false, ◌==◌, bytes_eq, ==→≡, inl, inr, Bool-cases, if◌then◌else◌, [], ◌∷◌,
  Option, none, some, Bytes, codes, arith, bytes_beq,
}
use picasso_backend.Base.Int.{pos}
use picasso_backend.Base.Numerals.{to_string, print}
use picasso_backend.Base.Text.{contains, find, find_code, rfind_code}
use picasso_backend.App.Config.{
  ok, exception, Environment, redact_dsn, load_config_from_environment,
}
use picasso_backend.App.Config.Port.{load-port, port_loaded}
use picasso_backend.App.Config.Redaction.{keywords, uri, render, masked, redact_dsn-render}
use picasso_backend.App.Startup.{Platform, run}
use picasso_backend.App.Config.Redaction.Unmasked.{redact_dsn-unmasked}
use picasso_backend.App.Startup.Secrets.{with_dsn, run-secret}
use picasso_backend.Logger.ActivityLogger.{csv_escape, log_line}
use picasso_backend.Logger.ActivityLogger.Calendar.{
  year_month_day, scan_field, is_valid, padded, date_stamp, parse_date_stamp, day_number,
  days_in_month,
}
use picasso_backend.Logger.ActivityLogger.Calendar.Days.{days_after}
use picasso_backend.Logger.ActivityLogger.Reading.{Logged, read}
use picasso_backend.Logger.ActivityLogger.Rotation as ActivityLogger
use picasso_backend.Logger.ActivityLogger.Rotation.{
  Directory, ActivityLogger, activity_logger, regular_file, log,
}
use picasso_backend.Logger.ActivityLogger.Rotation.Complete as Complete
use picasso_backend.Logger.ActivityLogger.Rotation.Calls as Calls
use picasso_backend.Logger.ActivityLogger.Rotation.Complete.{read_back, run_complete}
use picasso_backend.Logger.ActivityLogger.Rotation.Names.{name_of}
use picasso_backend.Logger.ActivityLogger.Rotation.Retention.{log-retention}
use picasso_backend.Transport.Http.Assets.{
  IsPublic, page_index, page_docs, style, script, get_css, serve_page, serve_page-confined,
}

program : Unit {0}
unfolding redact_dsn find find_code rfind_code load_config_from_environment to_string print run
    date_stamp parse_date_stamp day_number days_in_month days_after read csv_escape log_line
    bytes_beq scan_field is_valid padded ActivityLogger.file_name ActivityLogger.stamp_in
program = tt

quoted_masked :
    redact_dsn (codes "host=db password='a b' user=p") ≡ codes "host=db password=*** user=p"
unfolding program
quoted_masked = refl

uri_masked :
    redact_dsn (codes "postgresql://picasso:pw:@x@db:5432/p")
    ≡ codes "postgresql://picasso:***@db:5432/p"
unfolding program
uri_masked = refl

-- Spaces around the equals sign keep the loop from seeing the key.
spaced_key_not_masked :
    redact_dsn (codes "host=db password = secret") ≡ codes "host=db password = secret"
unfolding program
spaced_key_not_masked = refl

redact_dsn-render_example :
    redact_dsn (render (keywords true (codes "host=db ") (codes " user=p")) (codes "it's"))
    ≡ masked (keywords true (codes "host=db ") (codes " user=p"))
redact_dsn-render_example =
    redact_dsn-render (keywords true (codes "host=db ") (codes " user=p")) (codes "it's")
      (refl, refl, refl, refl, refl, refl)

-- A password that is a parameter of the query is logged.
redact_dsn-unmasked_example :
    redact_dsn (codes "postgresql://picasso@db:5432/p?password=secret")
    ≡ codes "postgresql://picasso@db:5432/p?password=secret"
redact_dsn-unmasked_example =
    redact_dsn-unmasked (codes "postgresql") (some (codes "picasso")) (codes "db:5432")
      (codes "/p?password=secret") (refl, refl, refl, refl, refl, refl)

-- So is one with `://` in the other form.
keyword_not_masked : redact_dsn (codes "host=db password=a://b") ≡ codes "host=db password=a://b"
unfolding program
keyword_not_masked = refl

abbrev nothing_set : Environment
nothing_set name = none

abbrev host : Platform
host = record {
  priorities = record { verbose = 0; debug = 1; info = 2; warning = 3; error = 4 };
  enabled = λ priority. true;
  open_database = λ dsn. ok 1;
  bind = λ address port. exception (codes "in use");
  server_run = ok tt;
  objects_left = 0;
}

run-secret_example :
    run host (
      with_dsn
        (render (uri (codes "postgresql") (codes "p") (codes "db") []) (codes "a"))
        nothing_set)
    ≡ run host (
        with_dsn
          (render (uri (codes "postgresql") (codes "p") (codes "db") []) (codes "bc"))
          nothing_set)
run-secret_example =
    run-secret host nothing_set (uri (codes "postgresql") (codes "p") (codes "db") []) (codes "a")
      (codes "bc") (refl, refl, refl, refl, refl, refl, refl)
      (refl, refl, refl, refl, refl, refl, refl) refl

abbrev port_set : Environment
port_set name = some (to_string 8080)

load-port_example : port_loaded (load_config_from_environment port_set) ≡ some 8080
load-port_example = load-port port_set 8080 (omega arith) refl

abbrev one_line : Logged
one_line = record {
  timestamp = [];
  level = codes "INFO";
  component = codes "a,b";
  message = codes "say \"hi\"";
}

abbrev december : ℕ × ℕ × ℕ
december = (2026, 12, 28)

abbrev with_file : Directory
with_file = ActivityLogger.put_entry (name_of december) (regular_file []) (λ name. none)

leap_day : parse_date_stamp (codes "02-29-2024") ≡ some (year_month_day (pos 2024) 2 29)
unfolding program
leap_day = refl

-- A file of December 28 is gone eight days later.
log-retention_example :
    ((log (year_month_day (pos 2027) 1 5) [] [] [] [] (activity_logger with_file (pos 7))).directory
        (name_of december)
      ≡ none)
    × ((log
            (year_month_day (pos 2027) 1 5)
            []
            []
            []
            []
            (activity_logger with_file (pos 7))).directory
          (codes "notes")
        ≡ with_file (codes "notes"))
unfolding program
log-retention_example =
    log-retention 7 7 december [] [] [] [] [] (codes "notes") (activity_logger with_file (pos 7))
      (omega arith) (omega arith) (omega arith) refl refl refl refl refl

run_complete_example :
    read_back (
      (Calls.run (Calls.after_day december ((0, one_line) ∷ [])) (
          Calls.run
            (Calls.on_day december (one_line ∷ []))
            (Calls.run [] (activity_logger (λ name. none) (pos 7))))).directory
        (name_of december))
    ≡ some (
        Complete.header_record
        ∷ ([] ∷ codes "INFO" ∷ codes "a,b" ∷ codes "say \"hi\"" ∷ [])
        ∷ ([] ∷ [])
        ∷ [])
unfolding program
run_complete_example =
    run_complete december 7 (λ name. none) [] one_line [] ((0, one_line) ∷ []) (omega arith)
      (omega arith) refl tt ((omega arith, omega arith), tt)

abbrev no_files : Bytes → Option Bytes
no_files path = none

abbrev secret_path : Bytes
secret_path = codes "/css/../secret.css"

-- There is one file, above the style sheets.
abbrev one_secret : Bytes → Option Bytes
one_secret path = if path == secret_path then some (codes "secret") else none

not_secret :
    (plain : Bytes) → contains (codes "/") plain ≡ false → (plain == codes "../secret.css") ≡ false
not_secret plain slash_free = elim (Bool-cases (plain == codes "../secret.css")) [
  | inr other ↦ other
  | inl same ↦ cc (slash_free, ap (contains (codes "/")) (==→≡ plain (codes "../secret.css") same))
]

secret_not_public :
    (path : Bytes) → IsPublic [] no_files one_secret path → no_files path ≡ one_secret path
unfolding program
secret_not_public _ page_index = refl
secret_not_public _ page_docs = refl
secret_not_public _ (style plain slash_free dotless) = rw (not_secret plain slash_free) refl
secret_not_public _ (script plain slash_free dotless) = refl

-- The two differ where the request points to.
secret_differs : one_secret secret_path ≡ some (codes "secret")
unfolding program
secret_differs = refl

serve_page-confined_example :
    serve_page [] no_files (get_css (some (codes "../secret.css")))
    ≡ serve_page [] one_secret (get_css (some (codes "../secret.css")))
serve_page-confined_example =
    serve_page-confined [] no_files one_secret (get_css (some (codes "../secret.css")))
      secret_not_public
