-- ===== src/Provenance/Artifacts.antt =====
-- The artifacts of a release directory, as tools/provenance/src/lib.rs lists and hashes them.
use perpetua_contracts.Prelude.{
  Bool, false, not, ◌&&◌, Option, none, some, List, [], ◌∷◌, ◌++◌, ⊤, ◌==◌, length, if◌then◌else◌,
}
use perpetua_contracts.Outcome.{done, ◌>>=◌, ◌>>◌, refuse_if, or_failed}
use perpetua_contracts.Provenance.Types.{
  Text, same_text, leb_text, Subject, Error, Outcome, Entry, Host,
}

-- `wasm`
abbrev pub wasm : Text
wasm = 119 ∷ 97 ∷ 115 ∷ 109 ∷ []

abbrev pub has_extension : Option Text → Text → Bool
has_extension none text = false
has_extension (some e) text = same_text e text

unfoldable pub validate_release_dir : Host → Text → Outcome ⊤
validate_release_dir host dir = do
  refuse_if (not (host.exists dir)) (Error.release_dir_missing dir)
  refuse_if (not (host.is_dir dir)) (Error.not_a_directory dir)

-- The loop of `list_wasm_files`.
unfoldable pub wasm_entries : List Entry → List Entry
wasm_entries [] = []
wasm_entries (e ∷ entries) =
    if e.is_file && has_extension e.extension wasm
    then e ∷ wasm_entries entries
    else wasm_entries entries

-- `sort`: paths of one directory are ordered by their file names.
unfoldable pub insert_sorted : Entry → List Entry → List Entry
insert_sorted e [] = e ∷ []
insert_sorted e (f ∷ files) =
    if leb_text e.file_name f.file_name then e ∷ f ∷ files else f ∷ insert_sorted e files

unfoldable pub sort : List Entry → List Entry
sort [] = []
sort (e ∷ entries) = insert_sorted e (sort entries)

unfoldable pub list_wasm_files : Host → Text → Outcome (List Entry)
list_wasm_files host dir = do
  entries ← or_failed (host.read_dir dir) (Error.io dir)
  done (sort (wasm_entries entries))

abbrev pub hash_file : Host → Text → Outcome Text
hash_file host path = do
  bytes ← or_failed (host.read path) (Error.io path)
  done (host.sha256_hex bytes)

-- The loop that hashes the files, in their order.
unfoldable pub hash_files : Host → List Entry → Outcome (List Subject)
hash_files host [] = done []
hash_files host (e ∷ files) = do
  hash ← hash_file host e.path
  rest ← hash_files host files
  done (record { name = e.file_name; sha256 = hash } ∷ rest)

unfoldable pub collect_artifacts : Host → Text → Outcome (List Subject)
collect_artifacts host dir = do
  files ← list_wasm_files host dir
  refuse_if (length files == 0) (Error.no_wasm_artifacts dir)
  hash_files host files

-- The text of the file `SHASUMS`: hash, two spaces, name, newline.
unfoldable pub shasums_text : List Subject → Text
shasums_text [] = []
shasums_text (s ∷ subjects) = s.sha256 ++ 32 ∷ 32 ∷ s.name ++ 10 ∷ shasums_text subjects
