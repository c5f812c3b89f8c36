-- ===== src/Stream/Guarantee/Batches.antt =====
-- The checks of the batch calls of contracts/stream/src/lib.rs.
use mathlib.Core.Logic.Or
use mathlib.Core.HLevel.{⊥_prop}
use mathlib.Core.List.{
  Mem, Nodup, Nodup-cons, Nodup-nil, not-mem-nil, mem-cons_self, mem-cons_of_mem,
  eq-or-mem_of_mem-cons,
}
use perpetua_contracts.Prelude.{
  ℕ, ◌≤◌, ◌<◌, ◌≡◌, ◌↔◌, inl, inr, true, false, List, [], ◌∷◌, map, length, arith, refl, ap,
  Bool-cases, ◌==◌, ltb,
}
use perpetua_contracts.Stream.Error.{Error, ok, fail_if, >>=-eq-ok}
use perpetua_contracts.Stream.Batch.Preflight.{
  RawValue, max_batch_size, decode_ids, validate_batch_ids, occurs, reject_duplicate_ids, preflight,
}
use perpetua_contracts.Stream.Inversion.Keeper.{preflight_inv}

occurs-Mem : (i : ℕ) (ids : List ℕ) → occurs i ids ≡ true → Mem i ids
unfolding occurs
occurs-Mem i [] h = absurd (ground arith)
occurs-Mem i (j ∷ ids) h = elim (Bool-cases (i == j)) [
  | inl same ↦ let e : i ≡ j = ground arith in rw e (mem-cons_self {a = j} {l = ids})
  | inr other ↦ mem-cons_of_mem j (occurs-Mem i ids (ground arith))
]

decode_inv :
    (raws : List RawValue) (ids : List ℕ)
    → decode_ids raws ≡ ok ids
    → raws ≡ map RawValue.u64_value ids
unfolding decode_ids
decode_inv [] ids h = let none_left : [] ≡ ids = ground arith in rw (← none_left) refl
decode_inv (RawValue.u64_value i ∷ raws) ids h =
    let (rest, e, h1) = >>=-eq-ok (decode_ids raws) _ h in
    let same : i ∷ rest ≡ ids = ground arith in
    rw (← same) (ap (◌∷◌ (RawValue.u64_value i)) (decode_inv raws rest e))
decode_inv (RawValue.other_value ∷ raws) ids h = absurd (ground arith)

decode_map : (ids : List ℕ) → decode_ids (map RawValue.u64_value ids) ≡ ok ids
unfolding decode_ids
decode_map [] = refl
decode_map (i ∷ ids) = rw (decode_map ids) refl

absent : (i : ℕ) (ids : List ℕ) → occurs i ids ≡ false → ¬ Mem i ids
unfolding occurs
absent i [] h m = not-mem-nil m
absent i (j ∷ ids) h m =
    Or.elim ⊥_prop (eq-or-mem_of_mem-cons m) (λ e. ground arith)
      (λ m'. absent i ids (ground arith) m')

distinct_accepted : (ids : List ℕ) → Nodup ids → reject_duplicate_ids ids ≡ ok tt
unfolding reject_duplicate_ids
distinct_accepted [] d = refl
distinct_accepted (i ∷ ids) d =
    let (fresh, rest) = Nodup-cons.0 d in
    let once : occurs i ids ≡ false = elim (Bool-cases (occurs i ids)) [
      | inl again ↦ absurd (fresh (occurs-Mem i ids again))
      | inr once ↦ once
    ] in
    rw once (distinct_accepted ids rest)

accepted_distinct : (ids : List ℕ) → reject_duplicate_ids ids ≡ ok tt → Nodup ids
unfolding reject_duplicate_ids
accepted_distinct [] h = Nodup-nil
accepted_distinct (i ∷ ids) h =
    let (_, once, rest) = >>=-eq-ok (fail_if (occurs i ids) Error.duplicate_stream_id) _ h in
    Nodup-cons.1 (absent i ids (ground arith), accepted_distinct ids rest)

-- The checks of every batch call accept exactly the vectors of 1 to 16 values that are all `u64`
-- ids, with no id twice, and return those ids in order.
pub preflight_accepts :
    (raws : List RawValue) (ids : List ℕ)
    → (preflight raws ≡ ok ids) ↔ (
        (raws ≡ map RawValue.u64_value ids)
        × (0 < length raws)
        × (length raws ≤ max_batch_size)
        × Nodup ids)
unfolding validate_batch_ids preflight
preflight_accepts raws ids = (
  λ h.
      let (valid, distinct) = preflight_inv raws ids h in
      let (_, nonempty, h1) = >>=-eq-ok (fail_if (length raws == 0) Error.empty_batch) _ valid in
      let (_, small, h2) =
        >>=-eq-ok (fail_if (ltb max_batch_size (length raws)) Error.batch_too_large) _ h1 in
      (decode_inv raws ids h2, ground arith, ground arith, accepted_distinct ids distinct),
  λ (same, nonempty, small, d).
      let decoded : decode_ids raws ≡ ok ids = rw same (decode_map ids) in
      ground (arith, distinct_accepted ids d),
)
