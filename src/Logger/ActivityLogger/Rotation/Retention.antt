-- ===== src/Logger/ActivityLogger/Rotation/Retention.antt =====
-- Which files the rotation removes (src/logger/ActivityLogger.cpp, `purgeOldFiles`).
use picasso_backend.Base.{
  ℕ, suc, ◌<◌, ◌≡◌, refl, ap, ◌∙◌, Bool, false, ◌&&◌, Option, none, some, Bytes, ltb, bytes_eq,
  ◌==◌, is_some, if◌then◌else◌,
}
use picasso_backend.Base.Int.{ℤ, pos}
use picasso_backend.Logger.ActivityLogger.{log_line}
use picasso_backend.Logger.ActivityLogger.Calendar.{YearMonthDay, date_stamp}
use picasso_backend.Logger.ActivityLogger.Calendar.Days.{date_of, days_after, IsDate}
use picasso_backend.Logger.ActivityLogger.Rotation.{
  DirectoryEntry, regular_file, other_entry, Directory, ActivityLogger, stamp_in, parsed_stamp,
  too_old, without_old, purge_old_files, file_name, open_file, write, rotate, rotate_if_needed, log,
}
use picasso_backend.Logger.ActivityLogger.Rotation.Names.{
  name_of, purge-name_of, kept, name_of-days_after,
}

open_file-other :
    (name other : Bytes) (entry : Option DirectoryEntry) (s : ActivityLogger)
    → (other == name) ≡ false
    → (open_file name entry s).directory other ≡ s.directory other
open_file-other name other none s h = rw h refl
open_file-other name other (some (regular_file text)) s h = refl
open_file-other name other (some other_entry) s h = refl

write-open_file :
    (name other text : Bytes) (entry : Option DirectoryEntry) (s : ActivityLogger)
    (directory : Directory)
    → (other == name) ≡ false
    → write text (open_file name entry s).file directory other ≡ directory other
write-open_file name other text none s directory h = rw h refl
write-open_file name other text (some (regular_file old)) s directory h = rw h refl
write-open_file name other text (some other_entry) s directory h = refl

-- Whether a call on that day goes on with the file that is open.
abbrev pub is_open_for : YearMonthDay → ActivityLogger → Bool
is_open_for today s = date_stamp today == s.current_stamp && is_some s.file

purge-same :
    (today : YearMonthDay) (r : ℤ) (before after : Directory) (name : Bytes)
    → before name ≡ after name
    → purge_old_files today r before name ≡ purge_old_files today r after name
unfolding purge_old_files
purge-same today r before after name h =
    ap (without_old (too_old today r (parsed_stamp (stamp_in name)))) h

-- What a call that rotates leaves under any other name than that of its own file.
pub log-other :
    (today : YearMonthDay) (timestamp level component message other : Bytes) (s : ActivityLogger)
    → is_open_for today s ≡ false
    → (other == file_name (date_stamp today)) ≡ false
    → (log today timestamp level component message s).directory other
      ≡ purge_old_files today s.retention_days s.directory other
unfolding log rotate_if_needed rotate
log-other today timestamp level component message other s closed h =
    let name = file_name (date_stamp today) in
    let opened = open_file name (s.directory name) s in
    let text = log_line timestamp level component message in
    rw closed (
      write-open_file name other text (s.directory name) s
        (purge_old_files today s.retention_days opened.directory) h
      ∙ purge-same today s.retention_days opened.directory s.directory other
          (open_file-other name other (s.directory name) s h))

purge-undated :
    (today : YearMonthDay) (r : ℤ) (directory : Directory) (name : Bytes)
    → parsed_stamp (stamp_in name) ≡ none
    → purge_old_files today r directory name ≡ directory name
unfolding purge_old_files
purge-undated today r directory name h = rw h (kept (directory name))

-- A call of the log that opens a file, some days after a date of the years 0 to 9999, removes the
-- file of that date exactly if these are more than the days of retention, and leaves it as it is
-- otherwise. Of the other files it changes none whose name has no date, but the one that it writes
-- to.
pub log-retention :
    (k r : ℕ) (t : ℕ × ℕ × ℕ) (timestamp level component message text other : Bytes)
    (s : ActivityLogger)
    → IsDate t
    → (days_after (suc k) t).0 < 10000
    → t.0 < 10000
    → s.retention_days ≡ pos r
    → is_open_for (date_of (days_after (suc k) t)) s ≡ false
    → s.directory (name_of t) ≡ some (regular_file text)
    → parsed_stamp (stamp_in other) ≡ none
    → (other == name_of (days_after (suc k) t)) ≡ false
    → ((log (date_of (days_after (suc k) t)) timestamp level component message s).directory
          (name_of t)
        ≡ (if ltb r (suc k) then none else some (regular_file text)))
      × ((log (date_of (days_after (suc k) t)) timestamp level component message s).directory other
          ≡ s.directory other)
log-retention k r t timestamp level component message text other s v year' year days closed old
      undated h =
    let today = date_of (days_after (suc k) t) in
    (
      log-other today timestamp level component message (name_of t) s closed
            (name_of-days_after k t v year' year)
          ∙ rw (days, purge-name_of (suc k) r t s.directory v year, old) refl,
      log-other today timestamp level component message other s closed h
          ∙ purge-undated today s.retention_days s.directory other undated,
    )
