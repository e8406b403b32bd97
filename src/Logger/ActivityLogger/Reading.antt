-- ===== src/Logger/ActivityLogger/Reading.antt =====
-- The log is read back as what was logged (src/logger/ActivityLogger.cpp, `csvEscape` and `log`).
use mathlib.Core.List.{append_assoc}
use picasso_backend.Base.{
  ℕ, ◌≡◌, refl, Bool, true, false, List, [], ◌∷◌, ◌++◌, Bytes, nat_beq, if◌then◌else◌, arith, inl,
  inr, Bool-cases,
}
use picasso_backend.Logger.ActivityLogger.{needs_quotes, double_quotes, csv_escape, log_line}

-- A reader of CSV: records are lines of fields with commas between them, a field may be in
-- quotation marks, and two of these in it are one.
pub data Mode : Type 0 where
  field_start bare quoted after_quote : Mode

abbrev pub Records : Type 0
Records = List (List Bytes)

-- In front of the first field of the first record.
abbrev pub put_char : ℕ → Records → Records
put_char c [] = ((c ∷ []) ∷ []) ∷ []
put_char c ([] ∷ rs) = ((c ∷ []) ∷ []) ∷ rs
put_char c ((f ∷ fs) ∷ rs) = ((c ∷ f) ∷ fs) ∷ rs

abbrev pub put_field : Records → Records
put_field [] = ([] ∷ []) ∷ []
put_field (fs ∷ rs) = ([] ∷ fs) ∷ rs

abbrev pub put_record : Records → Records
put_record rs = ([] ∷ []) ∷ rs

unfoldable pub read : Mode → Bytes → Records
read mode [] = ([] ∷ []) ∷ []
read quoted (c ∷ cs) =
    let closed = read after_quote cs in
    let more = put_char c (read quoted cs) in if nat_beq c 34 then closed else more
read after_quote (c ∷ cs) =
    let start = read field_start cs in
    if nat_beq c 34
    then put_char c (read quoted cs)
    else if nat_beq c 44
    then put_field start
    else if nat_beq c 10
    then put_record start
    else put_char c (read bare cs)
read field_start (c ∷ cs) =
    let start = read field_start cs in
    if nat_beq c 34
    then read quoted cs
    else if nat_beq c 44
    then put_field start
    else if nat_beq c 10
    then put_record start
    else put_char c (read bare cs)
read bare (c ∷ cs) =
    let start = read field_start cs in
    if nat_beq c 44
    then put_field start
    else if nat_beq c 10
    then put_record start
    else put_char c (read bare cs)

abbrev put_text : Bytes → Records → Records
put_text [] rs = rs
put_text (c ∷ cs) rs = put_char c (put_text cs rs)

-- What a separator does, a comma or the end of a line.
abbrev separate : Bool → Records → Records
separate true rs = put_field rs
separate false rs = put_record rs

abbrev separator : Bool → ℕ
separator true = 44
separator false = 10

read-quoted :
    (b : Bool) (field rest : Bytes)
    → read quoted (double_quotes field ++ 34 ∷ separator b ∷ rest)
      ≡ put_text field (separate b (read field_start rest))
unfolding read
read-quoted true [] rest = refl
read-quoted false [] rest = refl
read-quoted b (c ∷ cs) rest = ground (arith, read-quoted b cs rest)

read-bare :
    (b : Bool) (field rest : Bytes)
    → needs_quotes field ≡ false
    → read bare (field ++ separator b ∷ rest) ≡ put_text field (separate b (read field_start rest))
unfolding read
read-bare true [] rest h = refl
read-bare false [] rest h = refl
read-bare b (c ∷ cs) rest h = ground (arith, h, read-bare b cs rest)

read-plain :
    (b : Bool) (field rest : Bytes)
    → needs_quotes field ≡ false
    → read field_start (field ++ separator b ∷ rest)
      ≡ put_text field (separate b (read field_start rest))
unfolding read
read-plain true [] rest h = refl
read-plain false [] rest h = refl
read-plain b (c ∷ cs) rest h = ground (arith, h, read-bare b cs rest)

read-csv_escape :
    (b : Bool) (field rest : Bytes)
    → read field_start (csv_escape field ++ separator b ∷ rest)
      ≡ put_text field (separate b (read field_start rest))
unfolding csv_escape read
read-csv_escape b field rest = elim (Bool-cases (needs_quotes field)) [
  | inl special ↦
      rw (special, append_assoc (double_quotes field) (34 ∷ []) (separator b ∷ rest))
        (read-quoted b field rest)
  | inr plain ↦ rw plain (read-plain b field rest plain)
]

put_text-field :
    (f : Bytes) (fs : List Bytes) (rs : Records) → put_text f (([] ∷ fs) ∷ rs) ≡ (f ∷ fs) ∷ rs
put_text-field [] fs rs = refl
put_text-field (c ∷ cs) fs rs = rw (put_text-field cs fs rs) refl

-- One call of `log`.
pub record Logged : Type 0 where
  pub timestamp : Bytes
  pub level : Bytes
  pub component : Bytes
  pub message : Bytes

abbrev pub file_of : List Logged → Bytes
file_of [] = []
file_of (l ∷ ls) = log_line l.timestamp l.level l.component l.message ++ file_of ls

abbrev pub records_of : List Logged → Records
records_of [] = ([] ∷ []) ∷ []
records_of (l ∷ ls) = (l.timestamp ∷ l.level ∷ l.component ∷ l.message ∷ []) ∷ records_of ls

pub read-log_line :
    (t l c m rest : Bytes)
    → read field_start (log_line t l c m ++ rest) ≡ (t ∷ l ∷ c ∷ m ∷ []) ∷ read field_start rest
unfolding log_line
read-log_line t l c m rest =
    let end : Bytes = 10 ∷ [] in
    let of_m : Bytes = 44 ∷ (csv_escape m ++ end) in
    let of_c : Bytes = 44 ∷ (csv_escape c ++ of_m) in
    let of_l : Bytes = 44 ∷ (csv_escape l ++ of_c) in
    let after_c : Bytes = csv_escape m ++ (10 ∷ rest) in
    let after_l : Bytes = csv_escape c ++ (44 ∷ after_c) in
    let after_t : Bytes = csv_escape l ++ (44 ∷ after_l) in
    let flat : log_line t l c m ++ rest ≡ csv_escape t ++ (44 ∷ after_t) =
      rw
        (
          append_assoc (csv_escape t) of_l rest,
          append_assoc (csv_escape l) of_c rest,
          append_assoc (csv_escape c) of_m rest,
          append_assoc (csv_escape m) end rest,
        )
        refl in
    rw
      (
        flat,
        read-csv_escape true t after_t,
        read-csv_escape true l after_l,
        read-csv_escape true c after_c,
        read-csv_escape false m rest,
        put_text-field m [] (read field_start rest),
        put_text-field c (m ∷ []) (read field_start rest),
        put_text-field l (c ∷ m ∷ []) (read field_start rest),
        put_text-field t (l ∷ c ∷ m ∷ []) (read field_start rest),
      )
      refl

-- What is logged is read back by a reader of CSV: a file of lines has exactly the four fields of
-- each call, in the order of the calls, whatever commas, quotation marks and line ends are in
-- them; after the last line there is an empty one.
pub read-file : (ls : List Logged) → read field_start (file_of ls) ≡ records_of ls
unfolding read
read-file [] = refl
read-file (l ∷ ls) =
    rw (read-log_line l.timestamp l.level l.component l.message (file_of ls), read-file ls) refl
