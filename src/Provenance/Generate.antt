-- ===== src/Provenance/Generate.antt =====
-- `generate` of tools/provenance/src/lib.rs.
use perpetua_contracts.Prelude.{Option, List, [], ◌∷◌, ◌++◌, ⊤}
use perpetua_contracts.Outcome.{done, ◌>>=◌, ◌>>◌, or_failed}
use perpetua_contracts.Provenance.Types.{
  Text, Subject, Manifest, BuildMetadata, Error, Outcome, Host,
}
use perpetua_contracts.Provenance.Artifacts.{validate_release_dir, collect_artifacts, shasums_text}
use perpetua_contracts.Provenance.Verify.{root_or_found}

abbrev pub manifest_of : Text → Text → Text → List Subject → BuildMetadata → Text → Manifest
manifest_of schema build_type target artifacts meta now = record {
  schema = schema;
  subject = artifacts;
  build = record {
    build_type = build_type;
    target = target;
    profile = meta.profile;
    git_revision = meta.git_revision;
    git_ref = meta.git_ref;
    git_dirty = meta.git_dirty;
    toolchain_channel = meta.toolchain_channel;
    rustc = meta.rustc;
    cargo = meta.cargo;
    soroban_sdk = meta.soroban_sdk;
    host = meta.host;
    started_on = now;
  };
}

-- A call of `write_atomic`: the path and what it is to hold.
pub record Write : Type 0 where
  pub path : Text
  pub contents : Text

-- The manifest, and the two files that are written. `json` is what `serde_json` makes of the manifest,
-- `answer` what the file system answers to `write_atomic`, `shasums` the path of `SHASUMS`.
unfoldable pub generate :
    Host
    → (Manifest → Option Text)
    → (Write → Outcome ⊤)
    → Text
    → Text
    → Text
    → Text
    → Text
    → Text
    → Option Text
    → Text
    → Outcome (Manifest × List Write)
generate host json answer now shasums schema build_type dir manifest_path workspace_root target = do
  validate_release_dir host dir
  root ← root_or_found host dir workspace_root
  artifacts ← collect_artifacts host dir
  meta ← host.collect_metadata root
  let manifest = manifest_of schema build_type target artifacts meta now
  text ← or_failed (json manifest) Error.json
  let written : Write = record { path = manifest_path; contents = text ++ 10 ∷ [] }
  let sums : Write = record { path = shasums; contents = shasums_text artifacts }
  answer written
  answer sums
  done (manifest, written ∷ sums ∷ [])
