-- ===== src/Logger/ActivityLogger/Rotation.antt =====
-- The files of the log, their rotation at the change of the day and the removal of the old ones
-- (src/logger/ActivityLogger.cpp). The directory and the date are arguments; a file that can be
-- opened is one that is not there or is regular.
pub mod Names
pub mod Retention
pub mod Calls
pub mod Complete
use picasso_backend.Base.{
  ℕ, ◌-◌, ◌+◌, Bool, true, false, not, ◌&&◌, ◌||◌, List, [], ◌∷◌, ◌++◌, Option, none, some, Bytes,
  codes, length, take, drop, leb, ltb, bytes_eq, ◌==◌, is_some, if◌then◌else◌,
}
use picasso_backend.Base.Int.{ℤ, sub_ℕ, ltb_ℤ}
use picasso_backend.Base.Text.{starts_with}
use picasso_backend.Logger.ActivityLogger.{log_line}
use picasso_backend.Logger.ActivityLogger.Calendar.{
  YearMonthDay, day_number, date_stamp, parse_date_stamp,
}

abbrev pub file_prefix : Bytes
file_prefix = codes "log_file"

abbrev pub file_suffix : Bytes
file_suffix = codes ".csv"

unfoldable pub csv_header : Bytes
csv_header = codes "timestamp,level,component,message\n"

-- What is under a name in a directory: a regular file with its text, or something else.
pub data DirectoryEntry : Type 0 where
  regular_file : (text : Bytes) → DirectoryEntry
  other_entry : DirectoryEntry

abbrev pub Directory : Type 0
Directory = Bytes → Option DirectoryEntry

abbrev pub put_entry : Bytes → DirectoryEntry → Directory → Directory
put_entry name entry directory other = if other == name then some entry else directory other

-- `file` is the name of the file that is open.
pub record ActivityLogger : Type 0 where
  pub directory : Directory
  pub retention_days : ℤ
  pub file : Option Bytes
  pub current_stamp : Bytes

-- The constructor, on a directory that is there.
abbrev pub activity_logger : Directory → ℤ → ActivityLogger
activity_logger directory retention_days = record {
  directory = directory;
  retention_days = retention_days;
  file = none;
  current_stamp = [];
}

abbrev pub ends_with : Bytes → Bytes → Bool
ends_with suffix text =
    leb (length suffix) (length text) && drop (length text - length suffix) text == suffix

-- The stamp in a name that is one of a log file.
unfoldable pub stamp_in : Bytes → Option Bytes
stamp_in name =
    if not (starts_with file_prefix name)
      || not (ends_with file_suffix name)
      || leb (length name) (length file_prefix + length file_suffix)
    then none
    else some (
        take (length name - length file_prefix - length file_suffix)
          (drop (length file_prefix) name))

abbrev pub parsed_stamp : Option Bytes → Option YearMonthDay
parsed_stamp none = none
parsed_stamp (some stamp) = parse_date_stamp stamp

abbrev pub too_old : YearMonthDay → ℤ → Option YearMonthDay → Bool
too_old today retention_days none = false
too_old today retention_days (some parsed) =
    ltb_ℤ retention_days (sub_ℕ (day_number today) (day_number parsed))

abbrev pub without_old : Bool → Option DirectoryEntry → Option DirectoryEntry
without_old old none = none
without_old old (some other_entry) = some other_entry
without_old old (some (regular_file text)) = if old then none else some (regular_file text)

unfoldable pub purge_old_files : YearMonthDay → ℤ → Directory → Directory
purge_old_files today retention_days directory name =
    without_old (too_old today retention_days (parsed_stamp (stamp_in name))) (directory name)

unfoldable pub file_name : Bytes → Bytes
file_name stamp = file_prefix ++ (stamp ++ file_suffix)

-- `open` for appending, where the entry under the name is given, and the header of a new file.
abbrev pub open_file : Bytes → Option DirectoryEntry → ActivityLogger → ActivityLogger
open_file name none s = record s {
  directory = put_entry name (regular_file csv_header) s.directory;
  file = some name;
}
open_file name (some (regular_file text)) s = record s { file = some name }
open_file name (some other_entry) s = record s { file = none }

unfoldable pub rotate : YearMonthDay → ActivityLogger → ActivityLogger
rotate today s =
    let name = file_name (date_stamp today) in
    let opened = open_file name (s.directory name) s in
    record opened {
      current_stamp = date_stamp today;
      directory = purge_old_files today s.retention_days opened.directory;
    }

unfoldable pub rotate_if_needed : YearMonthDay → ActivityLogger → ActivityLogger
rotate_if_needed today s =
    if date_stamp today == s.current_stamp && is_some s.file then s else rotate today s

abbrev pub appended : Bytes → Option DirectoryEntry → Option DirectoryEntry
appended text none = none
appended text (some other_entry) = some other_entry
appended text (some (regular_file old)) = some (regular_file (old ++ text))

-- What is written to an open file is seen under its name, unless that has been removed.
abbrev pub write : Bytes → Option Bytes → Directory → Directory
write text none directory other = directory other
write text (some name) directory other =
    if other == name then appended text (directory other) else directory other

unfoldable pub log : YearMonthDay → Bytes → Bytes → Bytes → Bytes → ActivityLogger → ActivityLogger
log today timestamp level component message s =
    let rotated = rotate_if_needed today s in
    record rotated {
      directory = write (log_line timestamp level component message) rotated.file rotated.directory;
    }
