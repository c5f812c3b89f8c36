-- ===== src/Provenance/Exactness.antt =====
-- What a verification of tools/provenance/src/lib.rs has established when it succeeds.
use perpetua_contracts.Prelude.{
  ℕ, ◌≡◌, true, false, not, Option, none, some, List, [], ◌∷◌, ⊤, ◌==◌, ◌<◌, length, arith, refl,
}
use perpetua_contracts.Outcome.{done, or_failed, >>=-eq-done, refuse_if-eq-done}
use perpetua_contracts.Provenance.Types.{
  Text, same_text, Subject, Manifest, BuildMetadata, Error, Entry, Host,
}
use perpetua_contracts.Provenance.Artifacts.{validate_release_dir, list_wasm_files, hash_files}
use perpetua_contracts.Provenance.Verify.{
  seen_before, current_hash, check_subjects, has_subject, check_listed, check_field, check_fields,
  opt_string, root_or_found, verify,
}

same_text-eq : (xs ys : Text) → same_text xs ys ≡ true → xs ≡ ys
same_text-eq [] [] h = refl
same_text-eq [] (y ∷ ys) h = cc
same_text-eq (x ∷ xs) [] h = cc
same_text-eq (x ∷ xs) (y ∷ ys) h = ground (arith, same_text-eq xs ys)

-- The subjects have different names, none of them among `seen`, and the hash of each is that of the
-- present file of its name.
abbrev pub AllCurrent : List Subject → List Text → List Subject → Type 0
AllCurrent current seen [] = ⊤
AllCurrent current seen (s ∷ subjects) =
    (seen_before seen s.name ≡ false)
    × (current_hash current s.name ≡ some s.sha256)
    × AllCurrent current (s.name ∷ seen) subjects

-- Every file has a subject of its name.
abbrev pub AllListed : List Subject → List Subject → Type 0
AllListed subjects [] = ⊤
AllListed subjects (c ∷ current) = (has_subject subjects c.name ≡ true) × AllListed subjects current

check_subjects-AllCurrent :
    (current : List Subject) (seen : List Text) (subjects : List Subject)
    → check_subjects current seen subjects ≡ done tt
    → AllCurrent current seen subjects
unfolding check_subjects
check_subjects-AllCurrent current seen [] h = tt
check_subjects-AllCurrent current seen (s ∷ subjects) h =
    let (new, h1) =
      refuse_if-eq-done (seen_before seen s.name) (Error.duplicate_artifact s.name) _ h in
    let (actual, e, h2) =
      >>=-eq-done (or_failed (current_hash current s.name) (Error.missing_artifact s.name)) _ h1 in
    let (same, h3) =
      refuse_if-eq-done (not (same_text actual s.sha256))
        (Error.hash_mismatch s.name s.sha256 actual) _ h2 in
    let eq = same_text-eq actual s.sha256 (ground arith) in
    (
      new,
      present (current_hash current s.name) actual s.sha256 e eq,
      check_subjects-AllCurrent current (s.name ∷ seen) subjects h3,
    )
  where
    present :
        (o : Option Text) (actual hash : Text)
        → or_failed o (Error.missing_artifact s.name) ≡ done actual
        → actual ≡ hash
        → o ≡ some hash
    present none actual hash k eq = absurd (ground arith)
    present (some t) actual hash k eq = ground arith

check_listed-AllListed :
    (subjects current : List Subject)
    → check_listed subjects current ≡ done tt
    → AllListed subjects current
unfolding check_listed
check_listed-AllListed subjects [] h = tt
check_listed-AllListed subjects (c ∷ current) h =
    let (has, h1) =
      refuse_if-eq-done (not (has_subject subjects c.name)) (Error.unlisted_artifact c.name) _ h in
    (ground arith, check_listed-AllListed subjects current h1)

-- The fields of the manifest that `verify` compares are those of the present build.
pub record SameBuild (schema build_type target : Text) (manifest : Manifest) (meta : BuildMetadata)
    : Type 0 where
  pub same_schema : manifest.schema ≡ schema
  pub same_build_type : manifest.build.build_type ≡ build_type
  pub same_target : manifest.build.target ≡ target
  pub same_revision : manifest.build.git_revision ≡ meta.git_revision
  pub same_rustc : manifest.build.rustc ≡ meta.rustc
  pub same_cargo : manifest.build.cargo ≡ meta.cargo
  pub same_sdk : manifest.build.soroban_sdk ≡ meta.soroban_sdk
  pub same_toolchain :
      opt_string manifest.build.toolchain_channel ≡ opt_string meta.toolchain_channel
  pub same_profile : manifest.build.profile ≡ meta.profile

check_field-eq : (field : ℕ) (a b : Text) → check_field field a b ≡ done tt → a ≡ b
check_field-eq field a b h = same_text-eq a b (ground arith)

check_fields_same :
    (schema build_type target : Text) (m : Manifest) (meta : BuildMetadata)
    → check_fields schema build_type target m meta ≡ done tt
    → SameBuild schema build_type target m meta
unfolding check_fields
check_fields_same schema build_type target m meta h =
    let (_, a, h1) = >>=-eq-done (check_field 0 m.schema schema) _ h in
    let (_, b, h2) = >>=-eq-done (check_field 1 m.build.build_type build_type) _ h1 in
    let (_, c, h3) = >>=-eq-done (check_field 2 m.build.target target) _ h2 in
    let (_, d, h4) = >>=-eq-done (check_field 3 m.build.git_revision meta.git_revision) _ h3 in
    let (_, e, h5) = >>=-eq-done (check_field 4 m.build.rustc meta.rustc) _ h4 in
    let (_, f, h6) = >>=-eq-done (check_field 5 m.build.cargo meta.cargo) _ h5 in
    let (_, g, h7) = >>=-eq-done (check_field 6 m.build.soroban_sdk meta.soroban_sdk) _ h6 in
    let (_, i, h8) =
      >>=-eq-done
        (check_field 7 (opt_string m.build.toolchain_channel) (opt_string meta.toolchain_channel)) _
        h7 in
    record {
      same_schema = check_field-eq 0 m.schema schema a;
      same_build_type = check_field-eq 1 m.build.build_type build_type b;
      same_target = check_field-eq 2 m.build.target target c;
      same_revision = check_field-eq 3 m.build.git_revision meta.git_revision d;
      same_rustc = check_field-eq 4 m.build.rustc meta.rustc e;
      same_cargo = check_field-eq 5 m.build.cargo meta.cargo f;
      same_sdk = check_field-eq 6 m.build.soroban_sdk meta.soroban_sdk g;
      same_toolchain =
          check_field-eq 7 (opt_string m.build.toolchain_channel)
            (opt_string meta.toolchain_channel) i;
      same_profile = check_field-eq 8 m.build.profile meta.profile h8;
    }

-- What stands behind a verification: the manifest that was read, the files, and that they agree.
pub record Verified (host : Host) (schema build_type dir manifest_path : Text)
    (workspace_root : Option Text) (target : Text) (n : ℕ) : Type 0 where
  pub manifest : Manifest
  pub files : List Entry
  pub current : List Subject
  pub meta : BuildMetadata
  pub root : Text
  pub is_directory : (host.exists dir ≡ true) × (host.is_dir dir ≡ true)
  pub has_manifest : host.is_file manifest_path ≡ true
  pub text : List ℕ
  pub was_read : (host.read manifest_path ≡ some text) × (host.from_json text ≡ some manifest)
  pub listed : (list_wasm_files host dir ≡ done files) × (0 < length files)
  pub hashed : hash_files host files ≡ done current
  pub all_current : AllCurrent current [] manifest.subject
  pub all_listed : AllListed manifest.subject current
  pub measured :
      (root_or_found host dir workspace_root ≡ done root) × (host.collect_metadata root ≡ done meta)
  pub same_build : SameBuild schema build_type target manifest meta
  pub counted : n ≡ length manifest.subject

pub some_of_or_failed :
    {X : Type 0} (o : Option X) (code : Error) (x : X) → or_failed o code ≡ done x → o ≡ some x
some_of_or_failed none code x h = cc
some_of_or_failed (some y) code x h = ground arith

-- A verification that succeeds has found the release to be exactly what the manifest says: the
-- manifest can be read; its artifacts have different names, and the hash of each is that of the
-- present file of that name; every wasm file of the directory is among them, and there is one; the
-- schema, the build type, the target, the revision, the versions of rustc, cargo and the SDK, the
-- toolchain and the profile are the present ones; and the count that is returned is the artifacts'.
pub verify_exact :
    (host : Host) (schema build_type dir manifest_path : Text) (workspace_root : Option Text)
    (target : Text) (n : ℕ)
    → verify host schema build_type dir manifest_path workspace_root target ≡ done n
    → Verified host schema build_type dir manifest_path workspace_root target n
unfolding verify
verify_exact host schema build_type dir path workspace_root target n h =
    let (_, valid, h1) = >>=-eq-done (validate_release_dir host dir) _ h in
    let (has, h2) =
      refuse_if-eq-done (not (host.is_file path)) (Error.manifest_missing path) _ h1 in
    let (text, t, h3) = >>=-eq-done (or_failed (host.read path) (Error.io path)) _ h2 in
    let (m, j, h4) = >>=-eq-done (or_failed (host.from_json text) Error.json) _ h3 in
    let (files, l, h5) = >>=-eq-done (list_wasm_files host dir) _ h4 in
    let (some_file, h6) =
      refuse_if-eq-done (length files == 0) (Error.no_wasm_artifacts dir) _ h5 in
    let (current, c, h7) = >>=-eq-done (hash_files host files) _ h6 in
    let (_, s, h8) = >>=-eq-done (check_subjects current [] m.subject) _ h7 in
    let (_, u, h9) = >>=-eq-done (check_listed m.subject current) _ h8 in
    let (root, r, h10) = >>=-eq-done (root_or_found host dir workspace_root) _ h9 in
    let (meta, k, h11) = >>=-eq-done (host.collect_metadata root) _ h10 in
    let (_, f, h12) = >>=-eq-done (check_fields schema build_type target m meta) _ h11 in
    record {
      manifest = m;
      files = files;
      current = current;
      meta = meta;
      root = root;
      is_directory = valid_directory valid;
      has_manifest = ground arith;
      text = text;
      was_read = (
        some_of_or_failed (host.read path) (Error.io path) text t,
        some_of_or_failed (host.from_json text) Error.json m j,
      );
      listed = (l, ground arith);
      hashed = c;
      all_current = check_subjects-AllCurrent current [] m.subject s;
      all_listed = check_listed-AllListed m.subject current u;
      measured = (r, k);
      same_build = check_fields_same schema build_type target m meta f;
      counted = ground arith;
    }
  where
    valid_directory :
        validate_release_dir host dir ≡ done tt
        → (host.exists dir ≡ true) × (host.is_dir dir ≡ true)
    valid_directory v = unfold validate_release_dir in (ground arith, ground arith)
