-- ===== src/Logger/ActivityLogger/Rotation/Names.antt =====
-- The names of the log files and the dates in them, for the removal of the old ones
-- (src/logger/ActivityLogger.cpp).
use picasso_backend.Base.{
  ℕ, suc, ◌+◌, ◌-◌, ◌≤◌, ◌<◌, ◌≡◌, refl, sym, ap, ◌∙◌, true, false, ◌∷◌, ◌++◌, Option, none, some,
  Bytes, length, drop, length-append, take-append, drop-append, leb, ltb, bytes_eq, ◌==◌, ==_refl,
  ==→≡, arith, inl, inr, Bool-cases,
}
use picasso_backend.Base.Int.{pos}
use picasso_backend.Base.Text.{starts_with}
use picasso_backend.Logger.ActivityLogger.Calendar.{
  YearMonthDay, day_number, date_stamp, padded, padded_year,
}
use picasso_backend.Logger.ActivityLogger.Calendar.Days.{
  date_of, days_after, IsDate, days_after-IsDate, day_number-days_after,
}
use picasso_backend.Logger.ActivityLogger.Calendar.Stamps.{parse_date_stamp-date_stamp}
use picasso_backend.Logger.ActivityLogger.Rotation.{
  file_prefix, file_suffix, DirectoryEntry, regular_file, other_entry, Directory, ends_with,
  stamp_in, parsed_stamp, too_old, without_old, purge_old_files, file_name,
}

starts_with-prefix : (stamp : Bytes) → starts_with file_prefix (file_name stamp) ≡ true
unfolding file_name
starts_with-prefix stamp = refl

drop-file_prefix : (stamp : Bytes) → drop 8 (file_name stamp) ≡ stamp ++ file_suffix
unfolding file_name
drop-file_prefix stamp = refl

drop-prefix : (stamp : Bytes) → drop (length (file_prefix ++ stamp)) (file_name stamp) ≡ file_suffix
unfolding file_name
drop-prefix stamp = drop-append (file_prefix ++ stamp) file_suffix

length-file_name : (stamp : Bytes) → length (file_name stamp) ≡ length stamp + 12
unfolding file_name
length-file_name stamp = omega (arith, length-append stamp file_suffix)

ends_with-file_name : (stamp : Bytes) → ends_with file_suffix (file_name stamp) ≡ true
ends_with-file_name stamp =
    let long : leb 4 (length (file_name stamp)) ≡ true = ground (arith, length-file_name stamp) in
    let before : length (file_name stamp) - 4 ≡ length (file_prefix ++ stamp) =
      omega (arith, length-file_name stamp) in
    let end : drop (length (file_name stamp) - 4) (file_name stamp) ≡ file_suffix =
      rw before (drop-prefix stamp) in
    rw (long, end, ==_refl file_suffix) refl

stamp_in-file_name : (stamp : Bytes) → 1 ≤ length stamp → stamp_in (file_name stamp) ≡ some stamp
unfolding stamp_in
stamp_in-file_name stamp h =
    let starts : starts_with file_prefix (file_name stamp) ≡ true = starts_with-prefix stamp in
    let long : leb (length (file_name stamp)) 12 ≡ false = ground (arith, length-file_name stamp) in
    let counted : length (file_name stamp) - 8 - 4 ≡ length stamp =
      omega (arith, length-file_name stamp) in
    rw
      (
        starts,
        ends_with-file_name stamp,
        long,
        counted,
        drop-file_prefix stamp,
        take-append stamp file_suffix,
      )
      refl

length-date_stamp : (d : YearMonthDay) → 1 ≤ length (date_stamp d)
unfolding date_stamp
length-date_stamp d =
    omega
      (arith, length-append (padded 2 d.month) (45 ∷ (padded 2 d.day ++ (45 ∷ padded_year d.year))))

-- The name of the file of a date.
abbrev pub name_of : ℕ × ℕ × ℕ → Bytes
name_of t = file_name (date_stamp (date_of t))

parsed-name_of :
    (t : ℕ × ℕ × ℕ)
    → IsDate t
    → t.0 < 10000
    → parsed_stamp (stamp_in (name_of t)) ≡ some (date_of t)
parsed-name_of t v year =
    rw (stamp_in-file_name (date_stamp (date_of t)) (length-date_stamp (date_of t)))
      (parse_date_stamp-date_stamp t v year)

too_old-days_after :
    (k r : ℕ) (t : ℕ × ℕ × ℕ)
    → IsDate t
    → too_old (date_of (days_after k t)) (pos r) (some (date_of t)) ≡ ltb r k
too_old-days_after k r t v = ground (arith, day_number-days_after k t v)

pub purge-name_of :
    (k r : ℕ) (t : ℕ × ℕ × ℕ) (directory : Directory)
    → IsDate t
    → t.0 < 10000
    → purge_old_files (date_of (days_after k t)) (pos r) directory (name_of t)
      ≡ without_old (ltb r k) (directory (name_of t))
unfolding purge_old_files
purge-name_of k r t directory v year = rw (parsed-name_of t v year, too_old-days_after k r t v) refl

some_inj : {d e : YearMonthDay} → some d ≡ some e → d ≡ e
some_inj h = cc

different :
    (k : ℕ) (t : ℕ × ℕ × ℕ)
    → IsDate t
    → (days_after (suc k) t).0 < 10000
    → t.0 < 10000
    → ¬ (name_of t ≡ name_of (days_after (suc k) t))
different k t v year' year same =
    let v' = days_after-IsDate (suc k) t v in
    let parsed : some (date_of t) ≡ some (date_of (days_after (suc k) t)) =
      sym (parsed-name_of t v year)
      ∙ ap (λ n. parsed_stamp (stamp_in n)) same
      ∙ parsed-name_of (days_after (suc k) t) v' year' in
    absurd (omega (arith, ap day_number (some_inj parsed), day_number-days_after (suc k) t v))

pub kept : (entry : Option DirectoryEntry) → without_old false entry ≡ entry
kept none = refl
kept (some (regular_file text)) = refl
kept (some other_entry) = refl

-- A file of the day itself is not old.
pub purge-today :
    (r : ℕ) (t : ℕ × ℕ × ℕ) (directory : Directory)
    → IsDate t
    → t.0 < 10000
    → purge_old_files (date_of t) (pos r) directory (name_of t) ≡ directory (name_of t)
unfolding days_after
purge-today r t directory v year =
    let young : ltb r 0 ≡ false = ground arith in
    purge-name_of 0 r t directory v year ∙ rw young (kept (directory (name_of t)))

-- The files of two days have different names.
pub name_of-days_after :
    (k : ℕ) (t : ℕ × ℕ × ℕ)
    → IsDate t
    → (days_after (suc k) t).0 < 10000
    → t.0 < 10000
    → (name_of t == name_of (days_after (suc k) t)) ≡ false
name_of-days_after k t v year' year =
    elim (Bool-cases (name_of t == name_of (days_after (suc k) t))) [
      | inr other ↦ other
      | inl same ↦ absurd (different k t v year' year (==→≡ (name_of t) _ same))
    ]
