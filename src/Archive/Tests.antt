-- ===== src/Archive/Tests.antt =====
-- Runs of the check of archive paths, and the theorem about it there.
use vexa_vm.Common.{
  ℕ, ◌≡◌, ◌≤◌, ◌||◌, refl, String, true, false, Option, some, List, [], ◌∷◌, length,
}
use vexa_vm.Common.Chars.{codes, split}
use vexa_vm.Error.{ok, err}
use vexa_vm.Db.Rows.{All}
use vexa_vm.Archive.{
  max_path_components, max_path_component_bytes, allowed_directories, allowed_root_files, contains,
  utf8_length, check_components, check_top, check_normal, check_text, first, cur_dir, normal,
  later_components, path_components, validate_archive_path,
}
use vexa_vm.Archive.Inside.{walk, reverse_onto, validate_archive_path-inside}

-- Bytes that are decoded to the text given.
abbrev always : String → List ℕ → Option String
always text bytes = some text

abbrev raw : List ℕ
raw = codes "bin/vexa-vm/"

abbrev name : List ℕ
name = codes "bin/vexa-vm"

accepted : validate_archive_path (always "bin/vexa-vm/") raw true ≡ ok name
unfolding validate_archive_path check_text check_components check_top allowed_directories
    allowed_root_files check_normal path_components later_components
accepted = refl

climbing :
    validate_archive_path (always "bin/../etc") raw false
    ≡ err "release archive path contains a traversal component"
unfolding validate_archive_path check_text check_components
climbing = refl

normalised :
    path_components (split b'/' (codes "./bin//./x/"))
    ≡ cur_dir ∷ normal (codes "bin") ∷ normal (codes "x") ∷ []
unfolding path_components later_components
normalised = refl

validate_archive_path-inside_example :
    (walk (codes "release" ∷ []) (split b'/' name)
      ≡ reverse_onto (codes "release" ∷ []) (split b'/' name))
    × ((contains (first (split b'/' name)) allowed_root_files
          || contains (first (split b'/' name)) allowed_directories)
        ≡ true)
    × (length (split b'/' name) ≤ max_path_components)
    × All (λ c. utf8_length c ≤ max_path_component_bytes) (split b'/' name)
validate_archive_path-inside_example =
    validate_archive_path-inside (always "bin/vexa-vm/") raw true (codes "release" ∷ []) accepted
