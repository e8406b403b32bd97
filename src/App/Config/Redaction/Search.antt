-- ===== src/App/Config/Redaction/Search.antt =====
-- What the searches of src/app/Config.cpp find.
use picasso_backend.Base.{
  ℕ, zero, suc, ◌+◌, ◌≡◌, refl, ap, Bool, true, false, ◌||◌, [], ◌∷◌, ◌++◌, Option, none, some,
  Bytes, codes, length, nat_beq, arith, or_parts,
}
use picasso_backend.Base.Text.{contains, find, find_code, rfind_code, one_more}
use picasso_backend.App.Config.{or_end}

abbrev pub has_code : ℕ → Bytes → Bool
has_code c [] = false
has_code c (x ∷ xs) = nat_beq x c || has_code c xs

pub find-none : (part text : Bytes) → contains part text ≡ false → find part text ≡ none
unfolding find
find-none part [] h = ground (arith, h)
find-none part (c ∷ cs) h = ground (arith, h, find-none part cs)

abbrev pub shift : ℕ → Option ℕ → Option ℕ
shift zero o = o
shift (suc n) o = one_more (shift n o)

pub shift-some : (n i : ℕ) → shift n (some i) ≡ some (n + i)
shift-some zero i = ap some (omega arith)
shift-some (suc n) i = rw (shift-some n i) (ap some (omega arith))

pub find-scheme :
    (scheme text : Bytes)
    → has_code 58 scheme ≡ false
    → find (codes "://") (scheme ++ (codes "://" ++ text)) ≡ some (length scheme)
unfolding find
find-scheme [] text h = refl
find-scheme (c ∷ cs) text h = ground (arith, h, find-scheme cs text)

pub find_code-drop :
    (c : ℕ) (before text : Bytes)
    → find_code c (length before) (before ++ text) ≡ shift (length before) (find_code c 0 text)
unfolding find_code
find_code-drop c [] text = refl
find_code-drop c (x ∷ xs) [] = rw (find_code-drop c xs []) refl
find_code-drop c (x ∷ xs) (y ∷ ys) = rw (find_code-drop c xs (y ∷ ys)) refl

pub find_code-first :
    (c : ℕ) (before text : Bytes)
    → has_code c before ≡ false
    → find_code c 0 (before ++ c ∷ text) ≡ some (length before)
unfolding find_code
find_code-first c [] text h = ground arith
find_code-first c (x ∷ xs) text h = ground (arith, h, find_code-first c xs text)

find_code-none : (c : ℕ) (text : Bytes) → has_code c text ≡ false → find_code c 0 text ≡ none
unfolding find_code
find_code-none c [] h = refl
find_code-none c (x ∷ xs) h = ground (arith, h, find_code-none c xs)

-- A text that is nothing or starts with the slash that ends the authority.
abbrev pub is_path : Bytes → Bool
is_path [] = true
is_path (c ∷ cs) = nat_beq c 47

or_end-one_more : (end : ℕ) (o : Option ℕ) → or_end (suc end) (one_more o) ≡ suc (or_end end o)
or_end-one_more end none = refl
or_end-one_more end (some i) = refl

pub shift-none : (n : ℕ) → shift n none ≡ none
shift-none zero = refl
shift-none (suc n) = rw (shift-none n) refl

pub shift-shift : (m n : ℕ) (o : Option ℕ) → shift m (shift n o) ≡ shift (m + n) o
shift-shift zero n o = let first : 0 + n ≡ n = omega arith in rw first refl
shift-shift (suc m) n o =
    let later : suc m + n ≡ suc (m + n) = omega arith in rw (later, shift-shift m n o) refl

pub or_end-shift : (n end : ℕ) (o : Option ℕ) → or_end (n + end) (shift n o) ≡ n + or_end end o
or_end-shift n end none = rw (shift-none n) refl
or_end-shift n end (some i) = rw (shift-some n i) refl

pub find_code-path :
    (before path : Bytes)
    → has_code 47 before ≡ false
    → is_path path ≡ true
    → or_end (length (before ++ path)) (find_code 47 0 (before ++ path)) ≡ length before
unfolding find_code
find_code-path [] [] h p = refl
find_code-path [] (c ∷ cs) h p = ground (arith, p)
find_code-path (x ∷ xs) path h p =
    let (other, rest) = or_parts (nat_beq x 47) (has_code 47 xs) h in
    rw
      (
        other,
        or_end-one_more (length (xs ++ path)) (find_code 47 0 (xs ++ path)),
        find_code-path xs path rest p,
      )
      refl

-- The last one, where a text after it that has none is looked at too.
pub rfind_code-here :
    (c n : ℕ) (before text : Bytes)
    → rfind_code c n text ≡ none
    → rfind_code c (length before + suc n) (before ++ c ∷ text) ≡ some (length before)
unfolding rfind_code
rfind_code-here c n [] text h =
    let first : 0 + suc n ≡ suc n = omega arith in rw (first, h) (ground arith)
rfind_code-here c n (x ∷ xs) text h =
    let later : suc (length xs) + suc n ≡ suc (length xs + suc n) = omega arith in
    rw (later, rfind_code-here c n xs text h) refl

pub rfind_code-host :
    (host path : Bytes)
    → has_code 64 host ≡ false
    → is_path path ≡ true
    → rfind_code 64 (length host) (host ++ path) ≡ none
unfolding rfind_code
rfind_code-host [] [] h p = refl
rfind_code-host [] (c ∷ cs) h p = ground (arith, p)
rfind_code-host (x ∷ xs) path h p =
    let (other, rest) = or_parts (nat_beq x 64) (has_code 64 xs) h in
    rw (rfind_code-host xs path rest p, other) refl

pub has_code-append :
    (c : ℕ) (xs ys : Bytes) → has_code c (xs ++ ys) ≡ (has_code c xs || has_code c ys)
has_code-append c [] ys = refl
has_code-append c (x ∷ xs) ys = ground (arith, has_code-append c xs ys)

-- What is found after a text in which it is not.
pub find_code-after :
    (c : ℕ) (before text : Bytes)
    → has_code c before ≡ false
    → find_code c 0 (before ++ text) ≡ shift (length before) (find_code c 0 text)
unfolding find_code
find_code-after c [] text h = refl
find_code-after c (x ∷ xs) text h =
    let (other, rest) = or_parts (nat_beq x c) (has_code c xs) h in
    rw (other, find_code-after c xs text rest) refl

pub rfind_code-after :
    (c n : ℕ) (before text : Bytes)
    → has_code c before ≡ false
    → rfind_code c n text ≡ none
    → rfind_code c (length before + n) (before ++ text) ≡ none
unfolding rfind_code
rfind_code-after c n [] text h g = let first : 0 + n ≡ n = omega arith in rw first g
rfind_code-after c n (x ∷ xs) text h g =
    let (other, rest) = or_parts (nat_beq x c) (has_code c xs) h in
    let later : suc (length xs) + n ≡ suc (length xs + n) = omega arith in
    rw (later, rfind_code-after c n xs text rest g, other) refl
