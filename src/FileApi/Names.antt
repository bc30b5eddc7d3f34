-- ===== src/FileApi/Names.antt =====
-- connclient/src/file_api.h: `base_name` and `remove_extension` on texts of bytes.
use defold_connclient.Prelude.{
  ℕ, zero, suc, ◌≡◌, refl, ap, ◌∙◌, Bool, true, false, ◌||◌, Option, none, some, List, [], ◌∷◌,
  ◌++◌, length, take, drop, ◌==◌, if◌then◌else◌,
}

-- `find_last_of`, which looks for a byte of a set; `none` is `npos`.
unfoldable pub find_last_of : (ℕ → Bool) → List ℕ → Option ℕ
find_last_of among [] = none
find_last_of among (c ∷ rest) = elim (find_last_of among rest) [
  | none ↦ if among c then some 0 else none
  | some n ↦ some (suc n)
]

abbrev pub is_delim : ℕ → Bool
is_delim c = (c == b'/') || (c == 92)

abbrev pub is_dot : ℕ → Bool
is_dot c = c == b'.'

-- `npos + 1` is 0.
abbrev pub after_pos : Option ℕ → ℕ
after_pos none = 0
after_pos (some n) = suc n

unfoldable pub base_name : List ℕ → List ℕ
base_name path = drop (after_pos (find_last_of is_delim path)) path

abbrev pub before_pos : Option ℕ → List ℕ → List ℕ
before_pos none filename = filename
before_pos (some zero) filename = filename
before_pos (some (suc p)) filename = take (suc p) filename

unfoldable pub remove_extension : List ℕ → List ℕ
remove_extension filename = before_pos (find_last_of is_dot filename) filename

-- No byte of the text is in the set.
abbrev pub NoneAmong : (ℕ → Bool) → List ℕ → Type 0
NoneAmong among [] = Unit {0}
NoneAmong among (c ∷ rest) = (among c ≡ false) × NoneAmong among rest

find_last_of-none :
    (among : ℕ → Bool) (text : List ℕ) → NoneAmong among text → find_last_of among text ≡ none
unfolding find_last_of
find_last_of-none among [] free = refl
find_last_of-none among (c ∷ rest) free = rw (find_last_of-none among rest free.1, free.0) refl

find_last_of-append :
    (among : ℕ → Bool) (front : List ℕ) (c : ℕ) (text : List ℕ)
    → among c ≡ true
    → NoneAmong among text
    → find_last_of among (front ++ c ∷ text) ≡ some (length front)
unfolding find_last_of
find_last_of-append among [] c text there free = rw (find_last_of-none among text free, there) refl
find_last_of-append among (d ∷ front) c text there free =
    rw (find_last_of-append among front c text there free) refl

drop_front :
    (front : List ℕ) (c : ℕ) (text : List ℕ) → drop (suc (length front)) (front ++ c ∷ text) ≡ text
drop_front [] c text = refl
drop_front (d ∷ front) c text = drop_front front c text

take_front : (front text : List ℕ) → take (length front) (front ++ text) ≡ front
take_front [] text = refl
take_front (d ∷ front) text = ap (◌∷◌ d) (take_front front text)

base_name-append :
    (dir : List ℕ) (d : ℕ) (name : List ℕ)
    → is_delim d ≡ true
    → NoneAmong is_delim name
    → base_name (dir ++ d ∷ name) ≡ name
unfolding base_name
base_name-append dir d name there free =
    rw (find_last_of-append is_delim dir d name there free) (drop_front dir d name)

remove_extension-append :
    (c : ℕ) (stem ext : List ℕ)
    → NoneAmong is_dot ext
    → remove_extension (c ∷ stem ++ b'.' ∷ ext) ≡ c ∷ stem
unfolding remove_extension
remove_extension-append c stem ext free =
    rw (find_last_of-append is_dot (c ∷ stem) b'.' ext refl free)
      (take_front (c ∷ stem) (b'.' ∷ ext))

-- Of a path with a delimiter, a name and an extension behind a dot, where neither the name nor the
-- extension has a delimiter, the extension has no dot and the name is not empty, `base_name` and
-- then `remove_extension` leave the name.
remove_extension-base_name :
    (dir : List ℕ) (d c : ℕ) (stem ext : List ℕ)
    → is_delim d ≡ true
    → NoneAmong is_delim (c ∷ stem ++ b'.' ∷ ext)
    → NoneAmong is_dot ext
    → remove_extension (base_name (dir ++ (d ∷ (c ∷ stem ++ b'.' ∷ ext)))) ≡ c ∷ stem
remove_extension-base_name dir d c stem ext there free plain =
    ap remove_extension (base_name-append dir d (c ∷ stem ++ b'.' ∷ ext) there free)
    ∙ remove_extension-append c stem ext plain
