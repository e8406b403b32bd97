-- ===== src/Logger/ActivityLogger/Rotation/Complete.antt =====
-- The file of a day has every call of that day (src/logger/ActivityLogger.cpp, `log`).
use mathlib.Core.List.{append-nil, append_assoc}
use picasso_backend.Base.{
  ℕ, suc, ◌≤◌, ◌<◌, ◌≡◌, refl, sym, ap, ◌∙◌, true, false, List, [], ◌∷◌, ◌++◌, Option, none, some,
  Bytes, codes, ltb, bytes_eq, ◌==◌, All, arith, and_false,
}
use picasso_backend.Base.Int.{ℤ, pos}
use picasso_backend.Logger.ActivityLogger.{log_line}
use picasso_backend.Logger.ActivityLogger.Calendar.{YearMonthDay, date_stamp}
use picasso_backend.Logger.ActivityLogger.Calendar.Days.{date_of, days_after, IsDate}
use picasso_backend.Logger.ActivityLogger.Reading.{
  read, field_start, Records, Logged, file_of, records_of, read-log_line, read-file,
}
use picasso_backend.Logger.ActivityLogger.Rotation.{
  DirectoryEntry, regular_file, other_entry, Directory, ActivityLogger, activity_logger, csv_header,
  purge_old_files,
}
use picasso_backend.Logger.ActivityLogger.Rotation.Names.{
  name_of, name_of-days_after, purge-name_of, kept,
}
use picasso_backend.Logger.ActivityLogger.Rotation.Retention.{is_open_for}
use picasso_backend.Logger.ActivityLogger.Rotation.Calls.{
  Call, log_call, run, on_day, after_day, Named, file_name-ne, log_call-Named, log_call-days,
  log_call-stamp, log_call-elsewhere, log_call-append, log_call-first,
}

purge-none :
    (today : YearMonthDay) (r : ℤ) (directory : Directory) (name : Bytes)
    → directory name ≡ none
    → purge_old_files today r directory name ≡ directory name
unfolding purge_old_files
purge-none today r directory name h = rw h refl

module _ (t : ℕ × ℕ × ℕ) (r : ℕ) where
  -- The file of the day has this entry, and the logger is as its calls leave it.
  record Holds (entry : Option DirectoryEntry) (s : ActivityLogger) : Type 0 where
    named : Named s.file s.current_stamp
    days : s.retention_days ≡ pos r
    there : s.directory (name_of t) ≡ entry

  -- A call on a day with another stamp.
  abbrev pub IsElsewhere : Call → Type 0
  IsElsewhere c = (date_stamp (date_of t) == date_stamp (date_of c.0)) ≡ false

  -- A number of days, less one, that the file is kept.
  abbrev pub IsKept : ℕ × Logged → Type 0
  IsKept p = (suc p.0 ≤ r) × ((days_after (suc p.0) t).0 < 10000)

  Holds-elsewhere :
      (entry : Option DirectoryEntry) (c : Call) (s : ActivityLogger)
      → Holds entry s
      → (name_of t == name_of c.0) ≡ false
      → (purge_old_files (date_of c.0) (pos r) s.directory (name_of t) ≡ s.directory (name_of t))
      → Holds entry (log_call c s)
  Holds-elsewhere entry (d, l) s h other stays = record {
    named = log_call-Named d l s h.named;
    days = log_call-days d l s ∙ h.days;
    there = log_call-elsewhere d l s (name_of t) h.named other (rw h.days stays) ∙ h.there;
  }

  run_earlier :
      (calls : List Call) (s : ActivityLogger)
      → All IsElsewhere calls
      → Holds none s
      → is_open_for (date_of t) s ≡ false
      → Holds none (run calls s) × (is_open_for (date_of t) (run calls s) ≡ false)
  unfolding run
  run_earlier [] s away h closed = (h, closed)
  run_earlier ((d, l) ∷ cs) s (away, others) h closed =
      run_earlier cs (log_call (d, l) s) others
        (Holds-elsewhere none (d, l) s h
          (file_name-ne (date_stamp (date_of t)) (date_stamp (date_of d)) away)
          (purge-none (date_of d) (pos r) s.directory (name_of t) h.there))
        (rw (log_call-stamp d l s, away) refl)

  run-on_day :
      (ls : List Logged) (s : ActivityLogger) (text : Bytes)
      → Holds (some (regular_file text)) s
      → is_open_for (date_of t) s ≡ true
      → Holds (some (regular_file (text ++ file_of ls))) (run (on_day t ls) s)
  unfolding run
  run-on_day [] s text h on = record {
    named = h.named;
    days = h.days;
    there = h.there ∙ ap (λ x. some (regular_file x)) (sym (append-nil text));
  }
  run-on_day (l ∷ ls) s text h on =
      let line = log_line l.timestamp l.level l.component l.message in
      let (there, still) = log_call-append t l s text h.named on h.there in
      let h' : Holds (some (regular_file (text ++ line))) (log_call (t, l) s) = record {
        named = log_call-Named t l s h.named;
        days = log_call-days t l s ∙ h.days;
        there = there;
      } in
      rw (← append_assoc text line (file_of ls))
        (run-on_day ls (log_call (t, l) s) (text ++ line) h' still)

  run_later :
      (ps : List (ℕ × Logged)) (s : ActivityLogger) (text : Bytes)
      → IsDate t
      → t.0 < 10000
      → All IsKept ps
      → Holds (some (regular_file text)) s
      → Holds (some (regular_file text)) (run (after_day t ps) s)
  unfolding run
  run_later [] s text v year soon h = h
  run_later ((k, l) ∷ ps) s text v year ((within, year'), rest) h =
      let young : ltb r (suc k) ≡ false = ground arith in
      run_later ps (log_call (days_after (suc k) t, l) s) text v year rest (
        Holds-elsewhere (some (regular_file text)) (days_after (suc k) t, l) s h
          (name_of-days_after k t v year' year)
          (purge-name_of (suc k) r t s.directory v year
            ∙ rw young (kept (s.directory (name_of t)))))

-- The records in a file, as a reader of CSV sees them.
abbrev pub read_back : Option DirectoryEntry → Option Records
read_back none = none
read_back (some other_entry) = none
read_back (some (regular_file text)) = some (read field_start text)

abbrev pub header_record : List Bytes
header_record = codes "timestamp" ∷ codes "level" ∷ codes "component" ∷ codes "message" ∷ []

read-csv_header :
    (rest : Bytes) → read field_start (csv_header ++ rest) ≡ header_record ∷ read field_start rest
unfolding csv_header log_line
read-csv_header rest =
    read-log_line (codes "timestamp") (codes "level") (codes "component") (codes "message") rest

-- From a new logger on, whose directory has no file of a certain day of the years 0 to 9999, and
-- after any calls on days with other stamps, the calls on that day are all in the file of the day: a reader of CSV finds
-- the header, the four fields of each call in their order, whatever is in them, and an empty line,
-- also after any calls on later days within the days of retention.
pub run_complete :
    (t : ℕ × ℕ × ℕ) (r : ℕ) (directory : Directory) (earlier : List Call) (first : Logged)
    (more : List Logged) (later : List (ℕ × Logged))
    → IsDate t
    → t.0 < 10000
    → directory (name_of t) ≡ none
    → All (IsElsewhere t r) earlier
    → All (IsKept t r) later
    → read_back (
        (run (after_day t later) (
            run
              (on_day t (first ∷ more))
              (run earlier (activity_logger directory (pos r))))).directory
          (name_of t))
      ≡ some (header_record ∷ records_of (first ∷ more))
unfolding run
run_complete t r directory earlier first more later v year absent away soon =
    let before = run earlier (activity_logger directory (pos r)) in
    let line = log_line first.timestamp first.level first.component first.message in
    let (h, closed) =
      run_earlier t r earlier (activity_logger directory (pos r)) away
        (record { named = tt; days = refl; there = absent })
        (and_false (date_stamp (date_of t) == [])) in
    let (made, on) = log_call-first t first before r v year h.days closed h.there in
    let start : Holds t r (some (regular_file (csv_header ++ line))) (log_call (t, first) before) =
      record {
        named = log_call-Named t first before h.named;
        days = log_call-days t first before ∙ h.days;
        there = made;
      } in
    let whole =
      run_later t r later _ ((csv_header ++ line) ++ file_of more) v year soon
        (run-on_day t r more (log_call (t, first) before) (csv_header ++ line) start on) in
    rw
      (
        whole.there,
        append_assoc csv_header line (file_of more),
        read-csv_header (line ++ file_of more),
        read-file (first ∷ more),
      )
      refl
