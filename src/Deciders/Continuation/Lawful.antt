-- ===== src/Deciders/Continuation/Lawful.antt =====
-- Which continuations are advised.
use aios_tools.Prelude.{
  ◌≤◌, ◌<◌, String, Bool, true, false, some, List, [], ◌∷◌, length, contains, ◌≡◌, ◌≢◌, refl, arith,
  string_eq, nat_eq, eq_iff, Option-cases, inl, inr,
}
use aios_tools.Prelude.Json.{Json}
use aios_tools.Prelude.Sets.{is_subset-contains}
use aios_tools.Deciders.Continuation.{
  Action, block, stop_complete, insert_bounded_recovery, Snapshot, read_snapshot, same_texts,
  same_flag, same_boundary, union, no_texts, decide, advised, evaluate_continuation,
}

-- The boundary is the same, and the proposal rests on current evidence.
pub record Lawful (previous proposed : Snapshot) (action : Action) : Type 0 where
  pub same_workflow : previous.workflow ≡ proposed.workflow
  pub same_envelope : previous.envelope ≡ proposed.envelope
  pub same_prefix : previous.prefix ≡ proposed.prefix
  pub same_artifacts : previous.artifacts ≡ proposed.artifacts
  pub same_receipts : previous.receipts ≡ proposed.receipts
  pub same_count : previous.retry_count ≡ proposed.retry_count
  pub same_limit : previous.retry_limit ≡ proposed.retry_limit
  pub same_recovery : previous.recovery_used ≡ proposed.recovery_used
  pub specialists_kept :
      (s : String) → contains previous.specialists s ≡ true → contains proposed.specialists s ≡ true
  pub ceiling : length (union previous.specialists proposed.specialists) ≤ 2
  pub with_evidence : proposed.evidence ≢ []
  pub is_current : proposed.evidence_current ≡ true
  pub unambiguous : proposed.ambiguous ≡ false
  pub within_limit : action ≢ stop_complete → proposed.retry_count < proposed.retry_limit
  pub once : action ≡ insert_bounded_recovery → previous.recovery_used ≡ false

same_texts_lem : (xs ys : List String) → same_texts xs ys ≡ true → xs ≡ ys
unfolding same_texts
same_texts_lem [] [] h = refl
same_texts_lem [] (y ∷ ys) h = absurd (ground arith)
same_texts_lem (x ∷ xs) [] h = absurd (ground arith)
same_texts_lem (x ∷ xs) (y ∷ ys) h = ground (arith, eq_iff x y, same_texts_lem xs ys)

same_flag_lem : (a b : Bool) → same_flag a b ≡ true → a ≡ b
unfolding same_flag
same_flag_lem true b h = ground arith
same_flag_lem false b h = ground arith

filled : (xs : List String) → no_texts xs ≡ false → xs ≢ []
unfolding no_texts
filled [] h e = absurd (ground arith)
filled (x ∷ xs) h e = absurd (ground arith)

decide-Lawful : (a b : Snapshot) → (decide a b).0 ≢ block → Lawful a b (decide a b).0
unfolding decide same_boundary
decide-Lawful a b h = record {
  same_workflow = ground (arith, eq_iff a.workflow b.workflow);
  same_envelope = ground (arith, eq_iff a.envelope b.envelope);
  same_prefix = same_texts_lem a.prefix b.prefix (ground arith);
  same_artifacts = same_texts_lem a.artifacts b.artifacts (ground arith);
  same_receipts = same_texts_lem a.receipts b.receipts (ground arith);
  same_count = ground arith;
  same_limit = ground arith;
  same_recovery = same_flag_lem a.recovery_used b.recovery_used (ground arith);
  specialists_kept = λ s. is_subset-contains a.specialists b.specialists s (ground arith);
  ceiling = ground arith;
  with_evidence = filled b.evidence (ground arith);
  is_current = ground arith;
  unambiguous = ground arith;
  within_limit = λ d. ground arith;
  once = λ e. ground (arith, same_flag_lem a.recovery_used b.recovery_used);
}

-- Any advice but BLOCK is for two valid snapshots with one completed boundary, with no specialist
-- dropped and at most two in all, and on current evidence that is not ambiguous; it goes on only
-- below the limit of retries, and inserts a recovery only where none was used.
pub evaluate_continuation-Lawful :
    (previous proposed : Json)
    → (evaluate_continuation previous proposed).action ≢ block
    → (a : Snapshot) × (b : Snapshot) × (read_snapshot previous ≡ some a)
      × (read_snapshot proposed ≡ some b)
      × Lawful a b (evaluate_continuation previous proposed).action
unfolding evaluate_continuation advised
evaluate_continuation-Lawful previous proposed h = elim (Option-cases (read_snapshot previous)) [
  | inl gone ↦ absurd (ground arith)
  | inr (a, e) ↦ elim (Option-cases (read_snapshot proposed)) [
    | inl gone ↦ absurd (ground arith)
    | inr (b, f) ↦
        let same : (evaluate_continuation previous proposed).action ≡ (decide a b).0 =
          ground arith in
        (a, b, e, f, rw same (decide-Lawful a b (λ k. h (ground arith))))
  ]
]
