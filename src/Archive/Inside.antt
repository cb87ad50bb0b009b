-- ===== src/Archive/Inside.antt =====
-- Where a path that is unpacked leads.
use vexa_vm.Common.{
  ℕ, ◌≡◌, ◌≤◌, refl, Bool, String, true, false, ◌||◌, Option, List, [], ◌∷◌, arith, if◌then◌else◌,
  length, any, Option-cases, inl, inr,
}
use vexa_vm.Common.Chars.{codes, split, text_eq}
use vexa_vm.Error.{ok}
use vexa_vm.Db.Rows.{All}
use vexa_vm.Archive.{
  max_path_components, max_path_component_bytes, allowed_directories, allowed_root_files, contains,
  utf8_length, normalized, is_traversal, check_components, first, check_top, is_empty, check_text,
  validate_archive_path,
}

-- The directory, innermost name first, that a path leads to from a directory: an empty name and
-- `.` stay, `..` goes up, any other name goes down.
abbrev pub walk : List (List ℕ) → List (List ℕ) → List (List ℕ)
walk dir [] = dir
walk [] (c ∷ cs) =
    let down = walk (c ∷ []) cs in
    let stay = walk [] cs in if is_empty c || is_traversal c then stay else down
walk (d ∷ dir) (c ∷ cs) =
    let down = walk (c ∷ d ∷ dir) cs in
    let stay = walk (d ∷ dir) cs in
    let up = walk dir cs in
    if text_eq c (codes "..") then up else if is_empty c || is_traversal c then stay else down

abbrev pub reverse_onto : List (List ℕ) → List (List ℕ) → List (List ℕ)
reverse_onto dir [] = dir
reverse_onto dir (c ∷ cs) = reverse_onto (c ∷ dir) cs

walk-down :
    (dir cs : List (List ℕ))
    → any (λ c. is_empty c || is_traversal c) cs ≡ false
    → walk dir cs ≡ reverse_onto dir cs
walk-down dir [] h = refl
walk-down [] (c ∷ cs) h =
    let plain : (is_empty c || is_traversal c) ≡ false = ground arith in
    rw plain (walk-down (c ∷ []) cs (ground arith))
walk-down (d ∷ dir) (c ∷ cs) h =
    let plain : (is_empty c || is_traversal c) ≡ false = ground arith in
    let not_up : text_eq c (codes "..") ≡ false = ground (arith, plain) in
    rw (plain, not_up) (walk-down (c ∷ d ∷ dir) cs (ground arith))

components_small :
    (cs : List (List ℕ))
    → check_components cs ≡ ok tt
    → All (λ c. utf8_length c ≤ max_path_component_bytes) cs
unfolding check_components
components_small [] h = tt
components_small (c ∷ cs) h = (ground arith, components_small cs (ground arith))

components_plain :
    (cs : List (List ℕ))
    → any is_empty cs ≡ false
    → check_components cs ≡ ok tt
    → any (λ c. is_empty c || is_traversal c) cs ≡ false
unfolding check_components
components_plain [] e h = refl
components_plain (c ∷ cs) e h = ground (arith, components_plain cs (ground arith) (ground arith))

top_allowed :
    (cs : List (List ℕ)) (is_directory : Bool)
    → check_top cs is_directory ≡ ok tt
    → (contains (first cs) allowed_root_files || contains (first cs) allowed_directories) ≡ true
unfolding check_top
top_allowed cs is_directory h = ground arith

text-name :
    (text : List ℕ) (is_directory : Bool) {path : List ℕ}
    → check_text text is_directory ≡ ok path
    → normalized text is_directory ≡ path
unfolding check_text
text-name text is_directory {path} e = ground arith

text-named :
    (text : List ℕ) (is_directory : Bool) {path : List ℕ}
    → check_text text is_directory ≡ ok path
    → any is_empty (split b'/' path) ≡ false
unfolding check_text
text-named text is_directory {path} e = rw (← text-name text is_directory e) (ground arith)

text-few :
    (text : List ℕ) (is_directory : Bool) {path : List ℕ}
    → check_text text is_directory ≡ ok path
    → length (split b'/' path) ≤ max_path_components
unfolding check_text
text-few text is_directory {path} e = rw (← text-name text is_directory e) (ground arith)

text-checked :
    (text : List ℕ) (is_directory : Bool) {path : List ℕ}
    → check_text text is_directory ≡ ok path
    → (check_components (split b'/' path) ≡ ok tt)
      × (check_top (split b'/' path) is_directory ≡ ok tt)
unfolding check_text
text-checked text is_directory {path} e =
    rw (← text-name text is_directory e) (ground arith, ground arith)

-- A path of an archive that is accepted leads, from the directory of the release, to the names that
-- it spells one below the other, never up; the first of them is an allowed file or directory, there
-- are at most 48 of them and none is longer than 255 bytes.
pub validate_archive_path-inside :
    (from_utf8 : List ℕ → Option String) (raw : List ℕ) (is_directory : Bool) (dir : List (List ℕ))
    {path : List ℕ}
    → validate_archive_path from_utf8 raw is_directory ≡ ok path
    → (walk dir (split b'/' path) ≡ reverse_onto dir (split b'/' path))
      × ((contains (first (split b'/' path)) allowed_root_files
            || contains (first (split b'/' path)) allowed_directories)
          ≡ true)
      × (length (split b'/' path) ≤ max_path_components)
      × All (λ c. utf8_length c ≤ max_path_component_bytes) (split b'/' path)
unfolding validate_archive_path
validate_archive_path-inside from_utf8 raw is_directory dir {path} e =
    elim (Option-cases (from_utf8 raw)) [
      | inl bad ↦ absurd (ground (arith, bad))
      | inr (text, decoded) ↦
          let t : check_text (codes text) is_directory ≡ ok path = ground (arith, decoded) in
          let (small, top) = text-checked (codes text) is_directory t in
          let plain =
            components_plain (split b'/' path) (text-named (codes text) is_directory t) small in
          (
            walk-down dir (split b'/' path) plain,
            top_allowed (split b'/' path) is_directory top,
            text-few (codes text) is_directory t,
            components_small (split b'/' path) small,
          )
    ]
