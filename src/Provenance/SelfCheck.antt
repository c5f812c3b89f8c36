-- ===== src/Provenance/SelfCheck.antt =====
-- The checks of `verify` of tools/provenance/src/lib.rs on the artifacts and the build that its
-- `generate` has put into the manifest.
use perpetua_contracts.Prelude.{
  ◌≡◌, Bool, true, false, not, ◌||◌, Option, none, some, List, [], ◌∷◌, arith, refl,
}
use perpetua_contracts.Outcome.{done, >>=-eq-done, refuse_if-eq-done, or_failed}
use perpetua_contracts.Provenance.Types.{Text, same_text, Subject, BuildMetadata, Error}
use perpetua_contracts.Provenance.Verify.{
  seen_before, current_hash, check_subjects, has_subject, check_listed, check_fields, opt_string,
}
use perpetua_contracts.Provenance.Generate.{manifest_of}

same_text_refl : (xs : Text) → same_text xs xs ≡ true
same_text_refl [] = refl
same_text_refl (x ∷ xs) = ground (arith, same_text_refl xs)

same_text_sym : (xs ys : Text) → same_text xs ys ≡ same_text ys xs
same_text_sym [] [] = refl
same_text_sym [] (y ∷ ys) = refl
same_text_sym (x ∷ xs) [] = refl
same_text_sym (x ∷ xs) (y ∷ ys) = ground (arith, same_text_sym xs ys)

-- Two of the artifacts have the same name.
abbrev pub has_twin : List Subject → Bool
has_twin [] = false
has_twin (s ∷ subjects) = has_subject subjects s.name || has_twin subjects

-- A name that the rest does not have is found at the head, and one that it has is found there.
current_hash-rest :
    (s : Subject) (rest : List Subject) (name hash : Text)
    → current_hash rest name ≡ some hash
    → current_hash (s ∷ rest) name ≡ some hash
current_hash-rest s rest name hash h = ground arith

current_hash-missing :
    (rest : List Subject) (name : Text)
    → has_subject rest name ≡ false
    → current_hash rest name ≡ none
current_hash-missing [] name h = refl
current_hash-missing (s ∷ rest) name h = ground (arith, current_hash-missing rest name)

-- The loop goes through on subjects that are in the map and not yet seen.
checks_rest :
    (s : Subject) (rest : List Subject) (seen seen' : List Text) (subjects : List Subject)
    → ((n : Text) → seen_before seen' n ≡ (seen_before seen n || same_text s.name n))
    → has_subject subjects s.name ≡ false
    → check_subjects rest seen subjects ≡ done tt
    → check_subjects (s ∷ rest) seen' subjects ≡ done tt
unfolding check_subjects
checks_rest s rest seen seen' [] more h k = refl
checks_rest s rest seen seen' (t ∷ subjects) more h k =
    let (new, k1) =
      refuse_if-eq-done (seen_before seen t.name) (Error.duplicate_artifact t.name) _ k in
    let (actual, e, k2) =
      >>=-eq-done (or_failed (current_hash rest t.name) (Error.missing_artifact t.name)) _ k1 in
    let (same, k3) =
      refuse_if-eq-done (not (same_text actual t.sha256))
        (Error.hash_mismatch t.name t.sha256 actual) _ k2 in
    let found : current_hash rest t.name ≡ some actual =
      some_of (current_hash rest t.name) actual e in
    let found' = current_hash-rest s rest t.name actual found in
    let ih =
      checks_rest s rest (t.name ∷ seen) (t.name ∷ seen') subjects (λ n. ground (arith, more n))
        (ground arith) k3 in
    let new' : seen_before seen' t.name ≡ false =
      ground (arith, more t.name, same_text_sym s.name t.name) in
    ground (arith, ih)
  where
    some_of :
        (o : Option Text) (actual : Text)
        → or_failed o (Error.missing_artifact t.name) ≡ done actual
        → o ≡ some actual
    some_of none actual q = cc
    some_of (some x) actual q = ground arith

pub checks_itself :
    (subjects : List Subject)
    → has_twin subjects ≡ false
    → check_subjects subjects [] subjects ≡ done tt
unfolding check_subjects
checks_itself [] h = refl
checks_itself (s ∷ rest) h =
    let none_there = current_hash-missing rest s.name (ground arith) in
    let r = same_text_refl s.name in
    let r' = same_text_refl s.sha256 in
    let ih =
      checks_rest s rest [] (s.name ∷ []) rest (λ n. ground arith) (ground arith)
        (checks_itself rest (ground arith)) in
    ground (arith, ih)

listed_rest :
    (s : Subject) (subjects current : List Subject)
    → check_listed subjects current ≡ done tt
    → check_listed (s ∷ subjects) current ≡ done tt
unfolding check_listed
listed_rest s subjects [] h = refl
listed_rest s subjects (c ∷ current) h =
    let (has, k) =
      refuse_if-eq-done (not (has_subject subjects c.name)) (Error.unlisted_artifact c.name) _ h in
    ground (arith, listed_rest s subjects current k)

pub lists_itself : (subjects : List Subject) → check_listed subjects subjects ≡ done tt
unfolding check_listed
lists_itself [] = refl
lists_itself (s ∷ rest) =
    ground (arith, same_text_refl s.name, listed_rest s rest rest (lists_itself rest))

pub check_fields-manifest_of :
    (schema build_type target now : Text) (artifacts : List Subject) (meta : BuildMetadata)
    → check_fields schema build_type target
        (manifest_of schema build_type target artifacts meta now)
        meta
      ≡ done tt
unfolding check_fields
check_fields-manifest_of schema build_type target now artifacts meta =
    let channel = opt_string meta.toolchain_channel in
    rw (
      (same_text_refl schema),
      (same_text_refl build_type),
      (same_text_refl target),
      (same_text_refl meta.git_revision),
      (same_text_refl meta.rustc),
      (same_text_refl meta.cargo),
      (same_text_refl meta.soroban_sdk),
      (same_text_refl channel),
      (same_text_refl meta.profile),
    )
