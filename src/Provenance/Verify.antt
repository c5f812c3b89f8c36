-- ===== src/Provenance/Verify.antt =====
-- `verify` of tools/provenance/src/lib.rs: the manifest against the release directory and the present
-- environment.
use perpetua_contracts.Prelude.{
  ℕ, Bool, true, false, not, ◌||◌, Option, none, some, List, [], ◌∷◌, ⊤, ◌==◌, length, get_or,
}
use perpetua_contracts.Outcome.{done, ◌>>=◌, ◌>>◌, refuse_if, or_failed}
use perpetua_contracts.Provenance.Types.{
  Text, same_text, Subject, Manifest, BuildMetadata, Error, Outcome, Host,
}
use perpetua_contracts.Provenance.Artifacts.{validate_release_dir, list_wasm_files, hash_files}

-- The set of the names that have been seen.
abbrev pub seen_before : List Text → Text → Bool
seen_before [] name = false
seen_before (n ∷ names) name = same_text n name || seen_before names name

abbrev pub hash_or : Option Text → Bool → Text → Option Text
hash_or (some hash) same default = some hash
hash_or none true default = some default
hash_or none false default = none

-- `current.get`: the map has the last hash that was inserted under a name.
abbrev pub current_hash : List Subject → Text → Option Text
current_hash [] name = none
current_hash (c ∷ current) name =
    hash_or (current_hash current name) (same_text c.name name) c.sha256

-- The loop over the subjects of the manifest.
unfoldable pub check_subjects : List Subject → List Text → List Subject → Outcome ⊤
check_subjects current seen [] = done tt
check_subjects current seen (s ∷ subjects) = do
  refuse_if (seen_before seen s.name) (Error.duplicate_artifact s.name)
  actual ← or_failed (current_hash current s.name) (Error.missing_artifact s.name)
  refuse_if (not (same_text actual s.sha256)) (Error.hash_mismatch s.name s.sha256 actual)
  check_subjects current (s.name ∷ seen) subjects

abbrev pub has_subject : List Subject → Text → Bool
has_subject [] name = false
has_subject (s ∷ subjects) name = same_text s.name name || has_subject subjects name

-- The loop over the names of the files.
unfoldable pub check_listed : List Subject → List Subject → Outcome ⊤
check_listed subjects [] = done tt
check_listed subjects (c ∷ current) = do
  refuse_if (not (has_subject subjects c.name)) (Error.unlisted_artifact c.name)
  check_listed subjects current

abbrev pub check_field : ℕ → Text → Text → Outcome ⊤
check_field field recorded actual =
    refuse_if (not (same_text recorded actual)) (Error.metadata_mismatch field recorded actual)

-- `opt_string`: `<none>` stands for a value that is missing.
abbrev pub opt_string : Option Text → Text
opt_string value = get_or value (60 ∷ 110 ∷ 111 ∷ 110 ∷ 101 ∷ 62 ∷ [])

-- The fields that are compared, numbered in their order.
unfoldable pub check_fields : Text → Text → Text → Manifest → BuildMetadata → Outcome ⊤
check_fields schema build_type target manifest meta = do
  check_field 0 manifest.schema schema
  check_field 1 manifest.build.build_type build_type
  check_field 2 manifest.build.target target
  check_field 3 manifest.build.git_revision meta.git_revision
  check_field 4 manifest.build.rustc meta.rustc
  check_field 5 manifest.build.cargo meta.cargo
  check_field 6 manifest.build.soroban_sdk meta.soroban_sdk
  check_field 7 (opt_string manifest.build.toolchain_channel) (opt_string meta.toolchain_channel)
  check_field 8 manifest.build.profile meta.profile

abbrev pub root_or_found : Host → Text → Option Text → Outcome Text
root_or_found host dir (some root) = done root
root_or_found host dir none = host.find_workspace_root dir

-- `SCHEMA` and `BUILD_TYPE` are arguments, and so is the path of the manifest.
unfoldable pub verify : Host → Text → Text → Text → Text → Option Text → Text → Outcome ℕ
verify host schema build_type dir manifest_path workspace_root target = do
  validate_release_dir host dir
  refuse_if (not (host.is_file manifest_path)) (Error.manifest_missing manifest_path)
  text ← or_failed (host.read manifest_path) (Error.io manifest_path)
  manifest ← or_failed (host.from_json text) Error.json
  files ← list_wasm_files host dir
  refuse_if (length files == 0) (Error.no_wasm_artifacts dir)
  current ← hash_files host files
  check_subjects current [] manifest.subject
  check_listed manifest.subject current
  root ← root_or_found host dir workspace_root
  meta ← host.collect_metadata root
  check_fields schema build_type target manifest meta
  done (length manifest.subject)
