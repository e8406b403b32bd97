-- ===== src/Logger/ActivityLogger.antt =====
-- The lines of the activity log (src/logger/ActivityLogger.cpp). The time stamp is an argument.
pub mod Reading
pub mod Calendar
pub mod Rotation
use picasso_backend.Base.{ℕ, Bool, true, false, ◌||◌, [], ◌∷◌, ◌++◌, Bytes, nat_beq, if◌then◌else◌}

-- `find_first_of(",\"\n")` finds something.
abbrev pub needs_quotes : Bytes → Bool
needs_quotes [] = false
needs_quotes (c ∷ cs) = nat_beq c 44 || nat_beq c 34 || nat_beq c 10 || needs_quotes cs

abbrev pub double_quotes : Bytes → Bytes
double_quotes [] = []
double_quotes (c ∷ cs) = if nat_beq c 34 then 34 ∷ 34 ∷ double_quotes cs else c ∷ double_quotes cs

unfoldable pub csv_escape : Bytes → Bytes
csv_escape field = if needs_quotes field then 34 ∷ double_quotes field ++ 34 ∷ [] else field

-- What `log` appends to the file.
unfoldable pub log_line : Bytes → Bytes → Bytes → Bytes → Bytes
unfolding csv_escape
log_line timestamp level component message =
    let with_message : Bytes = csv_escape message ++ (10 ∷ []) in
    let with_component : Bytes = csv_escape component ++ (44 ∷ with_message) in
    let with_level : Bytes = csv_escape level ++ (44 ∷ with_component) in
    csv_escape timestamp ++ (44 ∷ with_level)
