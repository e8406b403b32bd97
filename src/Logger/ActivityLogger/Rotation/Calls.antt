-- ===== src/Logger/ActivityLogger/Rotation/Calls.antt =====
-- What one call of the log does to the file of its day and to the others
-- (src/logger/ActivityLogger.cpp, `log`).
use mathlib.Core.List.{append_cancel_right}
use picasso_backend.Base.{
  ℕ, suc, ◌<◌, ◌≡◌, refl, sym, ap, ◌∙◌, true, false, List, [], ◌∷◌, ◌++◌, Option, none, some, Bytes,
  drop, ltb, bytes_eq, ◌==◌, ==_refl, ==→≡, is_some, arith, inl, inr, Bool-cases, and_parts,
}
use picasso_backend.Base.Int.{pos}
use picasso_backend.Logger.ActivityLogger.{log_line}
use picasso_backend.Logger.ActivityLogger.Calendar.{date_stamp}
use picasso_backend.Logger.ActivityLogger.Calendar.Days.{date_of, days_after, IsDate}
use picasso_backend.Logger.ActivityLogger.Reading.{Logged}
use picasso_backend.Logger.ActivityLogger.Rotation.{
  file_suffix, DirectoryEntry, regular_file, other_entry, Directory, ActivityLogger, csv_header,
  put_entry, purge_old_files, file_name, open_file, write, rotate, rotate_if_needed, log,
}
use picasso_backend.Logger.ActivityLogger.Rotation.Names.{name_of, purge-today}
use picasso_backend.Logger.ActivityLogger.Rotation.Retention.{is_open_for, log-other}

-- A call of `log` on a day.
abbrev pub Call : Type 0
Call = (ℕ × ℕ × ℕ) × Logged

unfoldable pub log_call : Call → ActivityLogger → ActivityLogger
log_call (t, l) = log (date_of t) l.timestamp l.level l.component l.message

unfoldable pub run : List Call → ActivityLogger → ActivityLogger
run [] s = s
run (c ∷ cs) s = run cs (log_call c s)

-- The calls on one day, and calls some days after it.
abbrev pub on_day : ℕ × ℕ × ℕ → List Logged → List Call
on_day t [] = []
on_day t (l ∷ ls) = (t, l) ∷ on_day t ls

abbrev pub after_day : ℕ × ℕ × ℕ → List (ℕ × Logged) → List Call
after_day t [] = []
after_day t ((k, l) ∷ ls) = (days_after (suc k) t, l) ∷ after_day t ls

-- The file that is open has the name of the stamp.
abbrev pub Named : Option Bytes → Bytes → Type 0
Named none stamp = Unit {0}
Named (some name) stamp = name ≡ file_name stamp

pub file_name-ne : (a b : Bytes) → (a == b) ≡ false → (file_name a == file_name b) ≡ false
unfolding file_name
file_name-ne a b h = elim (Bool-cases (file_name a == file_name b)) [
  | inr other ↦ other
  | inl same ↦
      let equal : a ≡ b =
        append_cancel_right a b file_suffix (ap (drop 8) (==→≡ (file_name a) (file_name b) same)) in
      absurd (cc (sym h ∙ ap (a ==◌) (sym equal) ∙ ==_refl a))
]

open_file-Named :
    (stamp : Bytes) (entry : Option DirectoryEntry) (s : ActivityLogger)
    → Named (open_file (file_name stamp) entry s).file stamp
open_file-Named stamp none s = refl
open_file-Named stamp (some (regular_file text)) s = refl
open_file-Named stamp (some other_entry) s = tt

write-elsewhere :
    (file : Option Bytes) (stamp text other : Bytes) (directory : Directory)
    → Named file stamp
    → (other == file_name stamp) ≡ false
    → write text file directory other ≡ directory other
write-elsewhere none stamp text other directory named h = refl
write-elsewhere (some name) stamp text other directory named h = rw (named, h) refl

write-here :
    (file : Option Bytes) (stamp text line : Bytes) (directory : Directory)
    → Named file stamp
    → is_some file ≡ true
    → directory (file_name stamp) ≡ some (regular_file text)
    → write line file directory (file_name stamp) ≡ some (regular_file (text ++ line))
write-here none stamp text line directory named h there = cc
write-here (some name) stamp text line directory named h there =
    rw (named, ==_refl (file_name stamp), there) refl

not_older : (r : ℕ) → ltb r 0 ≡ false
not_older r = ground arith

open_file-days :
    (name : Bytes) (entry : Option DirectoryEntry) (s : ActivityLogger)
    → (open_file name entry s).retention_days ≡ s.retention_days
open_file-days name none s = refl
open_file-days name (some (regular_file text)) s = refl
open_file-days name (some other_entry) s = refl

module _ (t : ℕ × ℕ × ℕ) (l : Logged) (s : ActivityLogger) where
  -- The stamp of the open file is that of the day, where a call goes on with it.
  stamp_open : is_open_for (date_of t) s ≡ true → date_stamp (date_of t) ≡ s.current_stamp
  stamp_open on =
      ==→≡ (date_stamp (date_of t)) s.current_stamp
        (and_parts (date_stamp (date_of t) == s.current_stamp) _ on).0

  pub log_call-Named :
      Named s.file s.current_stamp
      → Named (log_call (t, l) s).file (log_call (t, l) s).current_stamp
  unfolding log_call log rotate_if_needed rotate
  log_call-Named named = elim (Bool-cases (is_open_for (date_of t) s)) [
    | inl on ↦ rw on named
    | inr closed ↦ rw closed (open_file-Named (date_stamp (date_of t)) _ s)
  ]

  pub log_call-days : (log_call (t, l) s).retention_days ≡ s.retention_days
  unfolding log_call log rotate_if_needed rotate
  log_call-days = elim (Bool-cases (is_open_for (date_of t) s)) [
    | inl on ↦ rw on refl
    | inr closed ↦ rw closed (open_file-days (file_name (date_stamp (date_of t))) _ s)
  ]

  pub log_call-stamp : (log_call (t, l) s).current_stamp ≡ date_stamp (date_of t)
  unfolding log_call log rotate_if_needed rotate
  log_call-stamp = elim (Bool-cases (is_open_for (date_of t) s)) [
    | inl on ↦ rw on (sym (stamp_open on))
    | inr closed ↦ rw closed refl
  ]

  -- What a call on another day leaves of a file.
  pub log_call-elsewhere :
      (other : Bytes)
      → Named s.file s.current_stamp
      → (other == file_name (date_stamp (date_of t))) ≡ false
      → (purge_old_files (date_of t) s.retention_days s.directory other ≡ s.directory other)
      → (log_call (t, l) s).directory other ≡ s.directory other
  unfolding log_call log rotate_if_needed
  log_call-elsewhere other named h stays = elim (Bool-cases (is_open_for (date_of t) s)) [
    | inl on ↦ rw on (
        write-elsewhere s.file s.current_stamp _ other s.directory named
          (ap (λ n. other == file_name n) (sym (stamp_open on)) ∙ h))
    | inr closed ↦
        log-other (date_of t) l.timestamp l.level l.component l.message other s closed h ∙ stays
  ]

  -- A call that goes on with the open file appends its line.
  pub log_call-append :
      (text : Bytes)
      → Named s.file s.current_stamp
      → is_open_for (date_of t) s ≡ true
      → s.directory (name_of t) ≡ some (regular_file text)
      → ((log_call (t, l) s).directory (name_of t)
          ≡ some (regular_file (text ++ log_line l.timestamp l.level l.component l.message)))
        × (is_open_for (date_of t) (log_call (t, l) s) ≡ true)
  unfolding log_call log rotate_if_needed
  log_call-append text named on there =
      let same = stamp_open on in
      (
        rw on (
            rw same (
              write-here s.file s.current_stamp text _ s.directory named
                (and_parts (date_stamp (date_of t) == s.current_stamp) _ on).1
                (ap (λ n. s.directory (file_name n)) (sym same) ∙ there))),
        rw on on,
      )

  -- The first call of a day makes the file.
  pub log_call-first :
      (r : ℕ)
      → IsDate t
      → t.0 < 10000
      → s.retention_days ≡ pos r
      → is_open_for (date_of t) s ≡ false
      → s.directory (name_of t) ≡ none
      → ((log_call (t, l) s).directory (name_of t)
          ≡ some (regular_file (csv_header ++ log_line l.timestamp l.level l.component l.message)))
        × (is_open_for (date_of t) (log_call (t, l) s) ≡ true)
  unfolding log_call log rotate_if_needed rotate
  log_call-first r v year days closed absent =
      let name = name_of t in
      let fresh = put_entry name (regular_file csv_header) s.directory in
      let kept : purge_old_files (date_of t) (pos r) fresh name ≡ some (regular_file csv_header) =
        purge-today r t fresh v year ∙ rw (==_refl name) refl in
      (
        rw (closed, absent, days, ==_refl name, kept) refl,
        rw (closed, absent, ==_refl (date_stamp (date_of t))) refl,
      )
