-- ===== src/Archive.antt =====
-- src/bin/vexa-update-helper/archive.rs: which paths of a release archive are unpacked.
--
-- A path is the list of its characters, and `from_utf8` decodes bytes. `path_components` is
-- `Path::components` of the standard library on Unix, which drops empty names and every `.` but a
-- leading one.
pub mod Inside
mod Tests
use vexa_vm.Common.{
  ℕ, Bool, String, true, false, ◌&&◌, ◌||◌, not, ◌+◌, ◌*◌, Option, none, some, List, [], ◌∷◌,
  if◌then◌else◌, ltb, ◌==◌, length, any,
}
use vexa_vm.Common.Chars.{codes, split, text_eq, starts_with, is_control}
use vexa_vm.Error.{Result, ok, err, ◌>>=◌, ◌>>◌, reject_if}

abbrev pub max_path_bytes : ℕ
max_path_bytes = 1024

abbrev pub max_path_component_bytes : ℕ
max_path_component_bytes = 255

abbrev pub max_path_components : ℕ
max_path_components = 48

unfoldable pub allowed_directories : List (List ℕ)
allowed_directories =
    codes "bin"
    ∷ codes "templates"
    ∷ codes "static"
    ∷ codes "migrations"
    ∷ codes "deploy"
    ∷ codes "docs"
    ∷ codes "guest-tools"
    ∷ []

unfoldable pub allowed_root_files : List (List ℕ)
allowed_root_files = codes "VERSION" ∷ codes "README.md" ∷ codes "LICENSE" ∷ []

-- `slice::contains`.
abbrev pub contains : List ℕ → List (List ℕ) → Bool
contains s texts = any (text_eq s) texts

abbrev width : ℕ → ℕ
width c = if ltb c 0x80 then 1 else if ltb c 0x800 then 2 else if ltb c 0x10000 then 3 else 4

-- `as_bytes().len()`.
abbrev pub utf8_length : List ℕ → ℕ
utf8_length [] = 0
utf8_length (c ∷ cs) = width c + utf8_length cs

abbrev pub ends_with_slash : List ℕ → Bool
ends_with_slash [] = false
ends_with_slash (c ∷ []) = c == b'/'
ends_with_slash (c ∷ d ∷ cs) = ends_with_slash (d ∷ cs)

-- All but the last character.
abbrev init : List ℕ → List ℕ
init [] = []
init (c ∷ []) = []
init (c ∷ d ∷ cs) = c ∷ init (d ∷ cs)

abbrev pub normalized : List ℕ → Bool → List ℕ
normalized path is_directory = if is_directory && ends_with_slash path then init path else path

abbrev pub is_traversal : List ℕ → Bool
is_traversal component = text_eq component (codes ".") || text_eq component (codes "..")

unfoldable pub check_components : List (List ℕ) → Result String (Unit {0})
check_components [] = ok tt
check_components (c ∷ cs) = do
  reject_if (is_traversal c) "release archive path contains a traversal component"
  reject_if (ltb max_path_component_bytes (utf8_length c))
      "release archive path component exceeds its length limit"
  check_components cs

abbrev pub first : List (List ℕ) → List ℕ
first [] = []
first (c ∷ cs) = c

unfoldable pub check_top : List (List ℕ) → Bool → Result String (Unit {0})
check_top components is_directory =
    let top = first components in
    if contains top allowed_root_files
    then reject_if (not (length components == 1) || is_directory)
        "release archive root file path is invalid"
    else if contains top allowed_directories
    then reject_if (length components == 1 && not is_directory)
        "release archive top-level directory is a file"
    else err "release archive path is outside the release allowlist"

abbrev require : Option String → String → Result String String
require none message = err message
require (some s) message = ok s

abbrev is_empty : List ℕ → Bool
is_empty c = length c == 0

-- `std::path::Component`, less the prefixes of Windows.
pub data Component : Type 0 where
  root_dir : Component
  cur_dir : Component
  parent_dir : Component
  normal : List ℕ → Component

abbrev is_normal : Component → Bool
is_normal (normal name) = true
is_normal _ = false

-- The components of the names after the first one, or after the leading slash.
unfoldable pub later_components : List (List ℕ) → List Component
later_components [] = []
later_components (c ∷ cs) =
    let rest = later_components cs in
    if is_empty c || text_eq c (codes ".")
    then rest
    else if text_eq c (codes "..")
    then parent_dir ∷ rest
    else normal c ∷ rest

-- The argument is the path, split at its slashes.
unfoldable pub path_components : List (List ℕ) → List Component
path_components [] = []
path_components (c ∷ cs) =
    if text_eq c (codes ".")
    then cur_dir ∷ later_components cs
    else if is_empty c && not (length cs == 0)
    then root_dir ∷ later_components cs
    else later_components (c ∷ cs)

unfoldable pub check_normal : List (List ℕ) → Result String (Unit {0})
check_normal components =
    reject_if (any (λ c. not (is_normal c)) (path_components components))
      "release archive path is not normalized"

-- What is asked of a path that is text.
unfoldable pub check_text : List ℕ → Bool → Result String (List ℕ)
check_text path is_directory = do
  reject_if
      (starts_with (b'/' ∷ []) path
        || any (λ c. c == 0) path
        || any (λ c. c == b'\\') path
        || any is_control path)
      "release archive path is not a safe relative path"
  let name = normalized path is_directory
  let components = split b'/' name
  reject_if (is_empty name || ends_with_slash name || any is_empty components)
      "release archive path is not normalized"
  reject_if (ltb max_path_components (length components))
      "release archive path contains too many components"
  check_components components
  check_top components is_directory
  check_normal components
  ok name

unfoldable pub validate_archive_path :
    (from_utf8 : List ℕ → Option String) → List ℕ → Bool → Result String (List ℕ)
validate_archive_path from_utf8 raw is_directory = do
  reject_if (length raw == 0 || ltb max_path_bytes (length raw))
      "release archive path is outside its length limit"
  text ← require (from_utf8 raw) "release archive path is not valid UTF-8"
  check_text (codes text) is_directory
