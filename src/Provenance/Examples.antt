-- ===== src/Provenance/Examples.antt =====
-- A release with two artifacts, its generation and its verification.
use perpetua_contracts.Prelude.{
  ℕ, ◌≡◌, true, false, none, some, List, [], ◌∷◌, refl, subst, arith, Option, ⊤, if◌then◌else◌,
}
use perpetua_contracts.Outcome.{done}
use perpetua_contracts.Provenance.Types.{
  Text, same_text, BuildMetadata, Manifest, Entry, Host, Outcome,
}
use perpetua_contracts.Provenance.Artifacts.{
  wasm, validate_release_dir, wasm_entries, insert_sorted, sort, list_wasm_files, hash_files,
  collect_artifacts, shasums_text,
}
use perpetua_contracts.Provenance.Verify.{check_subjects, check_listed, check_fields, verify}
use perpetua_contracts.Provenance.Generate.{Write, generate}
use perpetua_contracts.Provenance.RoundTrip.{generate-verify}
use perpetua_contracts.Provenance.Exactness.{Verified, verify_exact}

abbrev first_byte : List ℕ → ℕ
first_byte [] = 0
first_byte (x ∷ xs) = x

abbrev meta : BuildMetadata
meta = record {
  git_revision = 7 ∷ [];
  git_ref = none;
  git_dirty = false;
  toolchain_channel = none;
  rustc = 8 ∷ [];
  cargo = 9 ∷ [];
  soroban_sdk = 10 ∷ [];
  host = 11 ∷ [];
  profile = 12 ∷ [];
}

abbrev manifest : Manifest
manifest = record {
  schema = 1 ∷ [];
  subject =
      record { name = 97 ∷ []; sha256 = 97 ∷ 0 ∷ [] }
      ∷ record { name = 98 ∷ []; sha256 = 98 ∷ 0 ∷ [] }
      ∷ [];
  build = record {
    build_type = 2 ∷ [];
    target = 3 ∷ [];
    profile = 12 ∷ [];
    git_revision = 7 ∷ [];
    git_ref = none;
    git_dirty = false;
    toolchain_channel = none;
    rustc = 8 ∷ [];
    cargo = 9 ∷ [];
    soroban_sdk = 10 ∷ [];
    host = 11 ∷ [];
    started_on = [];
  };
}

abbrev entry : ℕ → Text → Entry
entry letter extension = record {
  path = 47 ∷ letter ∷ [];
  file_name = letter ∷ [];
  is_file = true;
  extension = some extension;
}

-- The directory 47 holds the artifacts 98 and 97 and a text; the content of a file is its letter, and
-- the toy hash puts a 0 behind it.
abbrev host : Host
host = record {
  exists = λ path. true;
  is_dir = λ path. same_text path (47 ∷ []);
  is_file = λ path. true;
  read_dir = λ path. some (entry 98 wasm ∷ entry 99 (116 ∷ []) ∷ entry 97 wasm ∷ []);
  read = λ path. if same_text path (47 ∷ 98 ∷ []) then some (98 ∷ []) else some (97 ∷ []);
  sha256_hex = λ bytes. first_byte bytes ∷ 0 ∷ [];
  from_json = λ text. some manifest;
  find_workspace_root = λ dir. done dir;
  collect_metadata = λ root. done meta;
}

verifies : verify host (1 ∷ []) (2 ∷ []) (47 ∷ []) (50 ∷ []) none (3 ∷ []) ≡ done 2
unfolding verify validate_release_dir list_wasm_files wasm_entries insert_sorted sort hash_files
    check_subjects check_listed check_fields
verifies = refl

verify_exact_example : Verified host (1 ∷ []) (2 ∷ []) (47 ∷ []) (50 ∷ []) none (3 ∷ []) 2
verify_exact_example =
    verify_exact host (1 ∷ []) (2 ∷ []) (47 ∷ []) (50 ∷ []) none (3 ∷ []) 2 verifies

abbrev json : Manifest → Option Text
json m = some (5 ∷ m.schema)

abbrev writes_all : Write → Outcome ⊤
writes_all w = done tt

abbrev shasums_contents : Text
shasums_contents = shasums_text manifest.subject

abbrev writes : List Write
writes =
    record { path = 50 ∷ []; contents = 5 ∷ 1 ∷ 10 ∷ [] }
    ∷ record { path = 51 ∷ []; contents = shasums_contents }
    ∷ []

-- The same directory after the manifest and `SHASUMS` have been written.
abbrev later : Host
later = record {
  exists = host.exists;
  is_dir = host.is_dir;
  is_file = host.is_file;
  read_dir = host.read_dir;
  read = λ path.
      if same_text path (50 ∷ [])
      then some (5 ∷ 1 ∷ 10 ∷ [])
      else if same_text path (51 ∷ [])
      then some shasums_contents
      else host.read path;
  sha256_hex = host.sha256_hex;
  from_json = host.from_json;
  find_workspace_root = host.find_workspace_root;
  collect_metadata = host.collect_metadata;
}

generates :
    generate host json writes_all [] (51 ∷ []) (1 ∷ []) (2 ∷ []) (47 ∷ []) (50 ∷ []) none (3 ∷ [])
    ≡ done (manifest, writes)
unfolding generate collect_artifacts validate_release_dir list_wasm_files wasm_entries insert_sorted
    sort hash_files shasums_text
generates = refl

abbrev wasm_files : List Entry
wasm_files = entry 97 wasm ∷ entry 98 wasm ∷ []

lists : list_wasm_files host (47 ∷ []) ≡ done wasm_files
unfolding list_wasm_files wasm_entries insert_sorted sort
lists = refl

still_listed : list_wasm_files later (47 ∷ []) ≡ list_wasm_files host (47 ∷ [])
unfolding list_wasm_files
still_listed = refl

still_valid : validate_release_dir later (47 ∷ []) ≡ done tt
unfolding validate_release_dir
still_valid = refl

still_hashed :
    (files : List Entry)
    → list_wasm_files host (47 ∷ []) ≡ done files
    → hash_files later files ≡ hash_files host files
unfolding hash_files
still_hashed files h =
    let same : wasm_files ≡ files = ground (arith, lists) in
    subst (λ l. hash_files later l ≡ hash_files host l) same refl

generate-verify_example : verify later (1 ∷ []) (2 ∷ []) (47 ∷ []) (50 ∷ []) none (3 ∷ []) ≡ done 2
generate-verify_example =
    generate-verify host later json writes_all [] (51 ∷ []) (1 ∷ []) (2 ∷ []) (47 ∷ []) (50 ∷ [])
      none (3 ∷ []) manifest writes generates refl (refl, (refl, tt)) (λ text h. refl) refl
      still_valid still_listed still_hashed refl (λ root. refl)
