-- ===== src/FileApi/Listing.antt =====
-- What `list_files` of connclient/src/file_api.cpp lists.
use defold_connclient.Prelude.{
  ℕ, suc, ◌-◌, ◌≤◌, ◌<◌, ◌≡◌, ◌≢◌, refl, sym, ap, ◌∙◌, Bool, true, false, not, ◌&&◌, ◌||◌, some,
  inl, inr, Bool-cases, List, [], ◌∷◌, ◌++◌, map, length, drop, leb, ◌==◌, if◌then◌else◌, arith,
  tests, append_assoc, append-nil, le→leb,
}
use defold_connclient.FileApi.{
  Disk, starts_with, finds, is_visible, has_suffix, file_name, list_entries, list_dir, list_files,
}

abbrev same : List ℕ → List ℕ → Bool
same [] [] = true
same [] (d ∷ b) = false
same (c ∷ a) [] = false
same (c ∷ a) (d ∷ b) = (c == d) && same a b

-- The name is the suffix behind at least one byte.
abbrev pub ends_in : List ℕ → List ℕ → Bool
ends_in suffix [] = false
ends_in suffix (c ∷ rest) = same suffix rest || ends_in suffix rest

abbrev pub select_names : (List ℕ → Bool) → List (List ℕ) → List (List ℕ)
select_names test [] = []
select_names test (name ∷ rest) =
    if test name then name ∷ select_names test rest else select_names test rest

starts_with_short :
    (suffix name : List ℕ) → length name < length suffix → starts_with suffix name ≡ false
unfolding starts_with
starts_with_short [] name h = absurd (omega (arith, h))
starts_with_short (c ∷ suffix) [] h = refl
starts_with_short (c ∷ suffix) (d ∷ name) h =
    ground (arith, starts_with_short suffix name (omega (arith, h)))

finds_short : (suffix name : List ℕ) → length name < length suffix → finds suffix name ≡ false
unfolding finds
finds_short suffix [] h = starts_with_short suffix [] h
finds_short suffix (c ∷ name) h =
    rw (starts_with_short suffix (c ∷ name) h) (finds_short suffix name (omega (arith, h)))

or_false : (b : Bool) → (b || false) ≡ b
or_false true = refl
or_false false = refl

same-starts_with :
    (suffix name : List ℕ)
    → length name ≡ length suffix
    → starts_with suffix name ≡ same suffix name
unfolding starts_with
same-starts_with [] [] h = refl
same-starts_with [] (d ∷ name) h = absurd (omega (arith, h))
same-starts_with (c ∷ suffix) [] h = absurd (omega (arith, h))
same-starts_with (c ∷ suffix) (d ∷ name) h =
    ap (◌&&◌ (c == d)) (same-starts_with suffix name (omega (arith, h)))

same-finds :
    (suffix name : List ℕ) → length name ≡ length suffix → finds suffix name ≡ same suffix name
unfolding finds
same-finds suffix [] h = same-starts_with suffix [] h
same-finds suffix (c ∷ name) h =
    rw (finds_short suffix name (omega (arith, h)), same-starts_with suffix (c ∷ name) h)
      (or_false _)

same_other : (a b : List ℕ) → length a ≢ length b → same a b ≡ false
same_other [] [] h = absurd (h refl)
same_other [] (d ∷ b) h = refl
same_other (c ∷ a) [] h = refl
same_other (c ∷ a) (d ∷ b) h = ground (arith, same_other a b (omega (arith, h)))

ends_in_short : (suffix name : List ℕ) → length name ≤ length suffix → ends_in suffix name ≡ false
ends_in_short suffix [] h = refl
ends_in_short suffix (c ∷ rest) h =
    rw (same_other suffix rest (omega (arith, h))) (ends_in_short suffix rest (omega (arith, h)))

-- Where the suffix would begin, the search finds it only there.
finds-drop :
    (suffix name : List ℕ)
    → length suffix ≤ length name
    → finds suffix (drop (length name - length suffix) name)
      ≡ (same suffix name || ends_in suffix name)
unfolding finds starts_with
finds-drop [] [] h = refl
finds-drop (d ∷ suffix) [] h = absurd (omega (arith, h))
finds-drop suffix (c ∷ rest) h = elim (Bool-cases (leb (suc (length rest)) (length suffix))) [
  | inl equal ↦
      let none_left : suc (length rest) - length suffix ≡ 0 = omega (tests, equal) in
      ap (λ n. finds suffix (drop n (c ∷ rest))) none_left
      ∙ same-finds suffix (c ∷ rest) (omega (tests, equal, h))
      ∙ rw (ends_in_short suffix (c ∷ rest) (omega (tests, equal))) (sym (or_false _))
  | inr longer ↦
      let one_more : suc (length rest) - length suffix ≡ suc (length rest - length suffix) =
        omega (tests, longer) in
      ap (λ n. finds suffix (drop n (c ∷ rest))) one_more
      ∙ finds-drop suffix rest (omega (tests, longer))
      ∙ rw (same_other suffix (c ∷ rest) (omega (tests, longer))) refl
]

-- The search from the place where the suffix would begin is the test that the name ends in it.
has_suffix-ends_in : (suffix name : List ℕ) → has_suffix suffix name ≡ ends_in suffix name
unfolding has_suffix
has_suffix-ends_in suffix [] = rw (le→leb 0 (length suffix) (omega arith)) refl
has_suffix-ends_in suffix (c ∷ rest) = elim (Bool-cases (leb (suc (length rest)) (length suffix))) [
  | inl short ↦ rw short (sym (ends_in_short suffix (c ∷ rest) (omega (tests, short))))
  | inr longer ↦
      let one_more : suc (length rest) - length suffix ≡ suc (length rest - length suffix) =
        omega (tests, longer) in
      rw (longer, one_more) (finds-drop suffix rest (omega (tests, longer)))
]

-- A visible name that ends in the suffix.
abbrev pub is_wanted : List ℕ → List ℕ → Bool
is_wanted suffix name = is_visible name && ends_in suffix name

one_entry :
    (shown : List ℕ → List ℕ) (name : List ℕ) (names vec : List (List ℕ)) (visible suffixed : Bool)
    → ◌≡◌ {A = List (List ℕ) × Bool}
        (if not visible
          then (vec ++ map shown names, true)
          else if suffixed
          then ((vec ++ shown name ∷ []) ++ map shown names, true)
          else (vec ++ map shown names, true))
        (vec ++ map shown (if visible && suffixed then name ∷ names else names), true)
one_entry shown name names vec false suffixed = refl
one_entry shown name names vec true false = refl
one_entry shown name names vec true true =
    ap (λ all. (all, true)) (append_assoc vec (shown name ∷ []) (map shown names))

list_entries_lem :
    (shown : List ℕ → List ℕ) (suffix : List ℕ) (names vec : List (List ℕ))
    → list_entries shown (some suffix) names vec
      ≡ (vec ++ map shown (select_names (is_wanted suffix) names), true)
unfolding list_entries
list_entries_lem shown suffix [] vec = rw (append-nil vec) refl
list_entries_lem shown suffix (name ∷ rest) vec =
    rw
      (
        list_entries_lem shown suffix rest vec,
        list_entries_lem shown suffix rest (vec ++ shown name ∷ []),
        sym (has_suffix-ends_in suffix name),
      )
      (one_entry shown name _ vec (is_visible name) (has_suffix suffix name))

module _ {State : Type 0} (disk : Disk State) where
  -- For a suffix and a directory that can be opened, the visible entries that end in the suffix
  -- behind at least one byte are put behind the names that are there, in their order and with the
  -- folder in front unless it is left out, and the directory is closed.
  pub list_files_lem :
      (folder_path suffix : List ℕ) (rm_folder_path : Bool) (vec : List (List ℕ)) (dir : ℕ)
      (s : State)
      → (disk.opendir folder_path s).0 ≡ some dir
      → let (names, s') = disk.readdir dir (disk.opendir folder_path s).1 in
        list_files disk folder_path (some suffix) rm_folder_path vec s ≡ (
          some (
              vec
              ++ map
                  (file_name folder_path rm_folder_path)
                  (select_names (is_wanted suffix) names)),
          disk.closedir dir s',
        )
  unfolding list_files list_dir
  list_files_lem folder_path suffix rm_folder_path vec dir s opened =
      rw
        (
          opened,
          list_dir,
          list_entries_lem (file_name folder_path rm_folder_path) suffix
              (disk.readdir dir (disk.opendir folder_path s).1).0 vec,
        )
        refl
