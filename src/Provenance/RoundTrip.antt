-- ===== src/Provenance/RoundTrip.antt =====
-- `generate` of tools/provenance/src/lib.rs and then its `verify`.
use perpetua_contracts.Prelude.{
  ◌≡◌, true, false, Option, some, List, [], ◌∷◌, ⊤, ◌==◌, length, arith, ◌++◌, sym, ◌∙◌, ap, subst,
}
use perpetua_contracts.Outcome.{done, >>=-eq-done, refuse_if-eq-done, or_failed}
use perpetua_contracts.Provenance.Types.{
  Text, Subject, Manifest, BuildMetadata, Error, Outcome, Entry, Host,
}
use perpetua_contracts.Provenance.Artifacts.{
  validate_release_dir, list_wasm_files, hash_files, collect_artifacts, shasums_text,
}
use perpetua_contracts.Provenance.Verify.{root_or_found, verify}
use perpetua_contracts.Provenance.Exactness.{some_of_or_failed}
use perpetua_contracts.Provenance.Generate.{manifest_of, Write, generate}
use perpetua_contracts.Provenance.SelfCheck.{
  has_twin, checks_itself, lists_itself, check_fields-manifest_of,
}

-- The file system has what was written.
abbrev pub AllWritten : Host → List Write → Type 0
AllWritten host [] = ⊤
AllWritten host (w ∷ writes) = (host.read w.path ≡ some w.contents) × AllWritten host writes

-- What a generation that succeeds has found, and that the manifest and the writes are of it.
record Generated (host : Host) (json : Manifest → Option Text) (answer : Write → Outcome ⊤)
    (now shasums schema build_type dir path : Text) (workspace_root : Option Text) (target : Text)
    (m : Manifest) (writes : List Write) : Type 0 where
  files : List Entry
  artifacts : List Subject
  root : Text
  meta : BuildMetadata
  text : Text
  found : root_or_found host dir workspace_root ≡ done root
  listed : (list_wasm_files host dir ≡ done files) × ((length files == 0) ≡ false)
  hashed : hash_files host files ≡ done artifacts
  measured : host.collect_metadata root ≡ done meta
  printed : json m ≡ some text
  is_manifest : m ≡ manifest_of schema build_type target artifacts meta now
  is_written :
      writes
      ≡ record { path = path; contents = text ++ 10 ∷ [] }
        ∷ record { path = shasums; contents = shasums_text artifacts }
        ∷ []

generate-Generated :
    (host : Host) (json : Manifest → Option Text) (answer : Write → Outcome ⊤)
    (now shasums schema build_type dir path : Text) (workspace_root : Option Text) (target : Text)
    (m : Manifest) (writes : List Write)
    → generate host json answer now shasums schema build_type dir path workspace_root target
      ≡ done (m, writes)
    → Generated host json answer now shasums schema build_type dir path workspace_root target m
        writes
unfolding generate collect_artifacts
generate-Generated host json answer now shasums schema build_type dir path workspace_root target m
      writes h =
    let (_, v, h1) = >>=-eq-done (validate_release_dir host dir) _ h in
    let (root, r, h2) = >>=-eq-done (root_or_found host dir workspace_root) _ h1 in
    let (artifacts, a, h3) = >>=-eq-done (collect_artifacts host dir) _ h2 in
    let (files, l, a1) = >>=-eq-done (list_wasm_files host dir) _ a in
    let (some_file, a2) =
      refuse_if-eq-done (length files == 0) (Error.no_wasm_artifacts dir) _ a1 in
    let (meta, k, h4) = >>=-eq-done (host.collect_metadata root) _ h3 in
    let made = manifest_of schema build_type target artifacts meta now in
    let (text, t, h5) = >>=-eq-done (or_failed (json made) Error.json) _ h4 in
    let written : Write = record { path = path; contents = text ++ 10 ∷ [] } in
    let sums : Write = record { path = shasums; contents = shasums_text artifacts } in
    let (_, w1, h6) = >>=-eq-done (answer written) _ h5 in
    let (_, w2, h7) = >>=-eq-done (answer sums) _ h6 in
    let same : m ≡ made = ground arith in
    record {
      files = files;
      artifacts = artifacts;
      root = root;
      meta = meta;
      text = text;
      found = r;
      listed = (l, some_file);
      hashed = a2;
      measured = k;
      printed = ap json same ∙ some_of_or_failed (json made) Error.json text t;
      is_manifest = same;
      is_written = ground arith;
    }

-- A release that was generated verifies. When `generate` has succeeded with artifacts of different
-- names, and later the manifest path is a file, what was written is read back, the printed manifest
-- with a newline is parsed to itself, and the directory, its wasm files with their hashes, the
-- workspace root and the measured build are still the same, then `verify` succeeds and returns the
-- number of the artifacts.
pub generate-verify :
    (host later : Host) (json : Manifest → Option Text) (answer : Write → Outcome ⊤)
    (now shasums schema build_type dir path : Text) (workspace_root : Option Text) (target : Text)
    (m : Manifest) (writes : List Write)
    → generate host json answer now shasums schema build_type dir path workspace_root target
      ≡ done (m, writes)
    → has_twin m.subject ≡ false
    → AllWritten later writes
    → ((text : Text) → json m ≡ some text → later.from_json (text ++ 10 ∷ []) ≡ some m)
    → later.is_file path ≡ true
    → validate_release_dir later dir ≡ done tt
    → list_wasm_files later dir ≡ list_wasm_files host dir
    → ((files : List Entry)
        → list_wasm_files host dir ≡ done files
        → hash_files later files ≡ hash_files host files)
    → root_or_found later dir workspace_root ≡ root_or_found host dir workspace_root
    → ((root : Text) → later.collect_metadata root ≡ host.collect_metadata root)
    → verify later schema build_type dir path workspace_root target ≡ done (length m.subject)
unfolding verify
generate-verify host later json answer now shasums schema build_type dir path workspace_root target
      m writes generated different written parsed is_file valid files_same hashes_same root_same
      meta_same =
    let g =
      generate-Generated host json answer now shasums schema build_type dir path workspace_root
        target m writes generated in
    let made = manifest_of schema build_type target g.artifacts g.meta now in
    let reads : later.read path ≡ some (g.text ++ 10 ∷ []) =
      (subst (AllWritten later) g.is_written written).0 in
    let parses = parsed g.text g.printed ∙ ap some g.is_manifest in
    let twins : has_twin g.artifacts ≡ false =
      sym (ap (λ x. has_twin x.subject) g.is_manifest) ∙ different in
    let subject : length m.subject ≡ length g.artifacts =
      ap (λ x. length x.subject) g.is_manifest in
    rw (
      subject,
      valid,
      is_file,
      reads,
      parses,
      (files_same ∙ g.listed.0),
      g.listed.1,
      (hashes_same g.files g.listed.0 ∙ g.hashed),
      (checks_itself g.artifacts twins),
      (lists_itself g.artifacts),
      (root_same ∙ g.found),
      (meta_same g.root ∙ g.measured),
      (check_fields-manifest_of schema build_type target now g.artifacts g.meta),
    )
