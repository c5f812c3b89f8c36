-- ===== src/Provenance/Types.antt =====
-- The manifest of tools/provenance/src/lib.rs and what surrounds the tool. A text is the list of its
-- bytes; a profile stands as its JSON text, which is what the tool compares.
use perpetua_contracts.Prelude.{
  ℕ, Bool, true, false, ◌&&◌, ◌==◌, Option, List, [], ◌∷◌, ltb, if◌then◌else◌,
}
use perpetua_contracts.Outcome.{Outcome as CallOutcome}

abbrev pub Text : Type 0
Text = List ℕ

abbrev pub same_text : Text → Text → Bool
same_text [] [] = true
same_text [] (y ∷ ys) = false
same_text (x ∷ xs) [] = false
same_text (x ∷ xs) (y ∷ ys) = x == y && same_text xs ys

-- The order of texts by their bytes, equality included.
abbrev pub leb_text : Text → Text → Bool
leb_text [] ys = true
leb_text (x ∷ xs) [] = false
leb_text (x ∷ xs) (y ∷ ys) = if x == y then leb_text xs ys else ltb x y

pub record Subject : Type 0 where
  pub name : Text
  pub sha256 : Text

pub record BuildInfo : Type 0 where
  pub build_type : Text
  pub target : Text
  pub profile : Text
  pub git_revision : Text
  pub git_ref : Option Text
  pub git_dirty : Bool
  pub toolchain_channel : Option Text
  pub rustc : Text
  pub cargo : Text
  pub soroban_sdk : Text
  pub host : Text
  pub started_on : Text

pub record Manifest : Type 0 where
  pub schema : Text
  pub subject : List Subject
  pub build : BuildInfo

pub record BuildMetadata : Type 0 where
  pub git_revision : Text
  pub git_ref : Option Text
  pub git_dirty : Bool
  pub toolchain_channel : Option Text
  pub rustc : Text
  pub cargo : Text
  pub soroban_sdk : Text
  pub host : Text
  pub profile : Text

pub data Error : Type 0 where
  release_dir_missing not_a_directory no_wasm_artifacts manifest_missing : Text → Error
  io : Text → Error
  json : Error
  missing_artifact duplicate_artifact unlisted_artifact : Text → Error
  -- name, recorded hash, hash of the file
  hash_mismatch : Text → Text → Text → Error
  -- field, recorded value, present value
  metadata_mismatch : ℕ → Text → Text → Error
  -- an error of git, of a tool or of the workspace's files
  environment : Error

abbrev pub Outcome {κ} : Type κ → Type κ
Outcome Value = CallOutcome Error Value

-- One entry of a directory.
pub record Entry : Type 0 where
  pub path : Text
  pub file_name : Text
  pub is_file : Bool
  pub extension : Option Text

-- The file system, the crates and the programs that the tool calls.
pub record Host : Type 0 where
  pub exists : Text → Bool
  pub is_dir : Text → Bool
  pub is_file : Text → Bool
  pub read_dir : Text → Option (List Entry)
  pub read : Text → Option (List ℕ)
  -- `sha256_hex`
  pub sha256_hex : List ℕ → Text
  -- `serde_json::from_str`
  pub from_json : Text → Option Manifest
  -- `find_workspace_root` and `collect_metadata`, which ask git, the tools and the workspace's files
  pub find_workspace_root : Text → Outcome Text
  pub collect_metadata : Text → Outcome BuildMetadata
