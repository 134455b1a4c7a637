-- ===== src/Browser/Effects/Check/Passed.antt =====
-- What a check of the remote state has seen when it passes.
use aios_tools.Prelude.{
  ℕ, String, true, Option, none, some, List, [], ◌∷◌, ◌++◌, ◌≡◌, ◌⊎◌, inl, inr, refl, sym, ap, ◌∙◌,
  arith, string_eq, nat_eq, ◌==◌, eq→path, Result, ok, err, Result-cases, Option-cases, Bool-cases,
  step_returned, guard_passed, not,
}
use aios_tools.Prelude.Json.{
  Json, null, boolean, number, other_number, text, array, object, Fields, get, as_text, as_int,
}
use aios_tools.Browser.Mutation.Approval.{MutationError, canonical_target}
use aios_tools.Browser.Effects.{
  EffectError, check_crosses_origin, check_status_invalid, Request, read, Response, Net, text_or,
  int_between, int_or, policy_or, same_origin,
}
use aios_tools.Browser.Effects.Check.{
  CheckReceipt, check_subset, check_request, is_null, checked_response, response_or, json_or,
  sent_check, readcheck,
}

-- The check was one read, of its canonical URL on the origin of the target; the response had the
-- status that the check expects, and JSON with the expected subset, if it expects one.
pub record Passed (net : Net) (check : Fields) (origin : String) (timeout_ms : ℕ)
    (before : List Request) (receipt : CheckReceipt) (after : List Request) : Type 0 where
  pub raw : String
  pub url : String
  pub response : Response
  pub of_check : as_text (get "url" check) ≡ some raw
  pub of_origin : same_origin net raw origin ≡ ok true
  pub canonical : canonical_target net.host (some raw) ≡ ok url
  pub asked : after ≡ before ++ read url timeout_ms ∷ []
  pub answered : net.respond before (read url timeout_ms) ≡ some response
  pub expected : as_int (get "expected_status" check) ≡ some response.status
  pub receipt_status : receipt.status ≡ response.status
  pub subset :
      (get "expected_json_subset" check ≡ null)
      ⊎ ((actual : Json) × (response.json ≡ some actual)
          × (check_subset net actual (get "expected_json_subset" check) ≡ true))

int_between-int :
    (first last n : ℕ) (value : Json) (e : EffectError)
    → int_between first last value e ≡ ok n
    → as_int value ≡ some n
unfolding int_between int_or
int_between-int first last n value e h = elim (Option-cases (as_int value)) [
  | inl gone ↦ absurd (ground arith)
  | inr (m, given) ↦ ground arith
]

text_or-some : (e : EffectError) (t : Option String) (s : String) → text_or e t ≡ ok s → t ≡ some s
unfolding text_or
text_or-some e none s h = absurd (ground arith)
text_or-some e (some t) s h = ground arith

policy_or-ok : (r : Result MutationError String) (s : String) → policy_or r ≡ ok s → r ≡ ok s
unfolding policy_or
policy_or-ok (ok t) s h = ground arith
policy_or-ok (err e) s h = absurd (ground arith)

module _ (net : Net) where
  null_of : (value : Json) → is_null net value ≡ true → value ≡ null
  unfolding is_null
  null_of null h = refl
  null_of (boolean b) h = absurd (ground arith)
  null_of (number n) h = absurd (ground arith)
  null_of other_number h = absurd (ground arith)
  null_of (text s) h = absurd (ground arith)
  null_of (array items) h = absurd (ground arith)
  null_of (object fields) h = absurd (ground arith)

  -- What is known of a request that `check_request` has answered.
  record Asked (check : Fields) (origin url : String) (status : ℕ) : Type 0 where
    raw : String
    of_check : as_text (get "url" check) ≡ some raw
    of_origin : same_origin net raw origin ≡ ok true
    canonical : canonical_target net.host (some raw) ≡ ok url
    expected : as_int (get "expected_status" check) ≡ some status

  check_request-Asked :
      (check : Fields) (origin url : String) (status : ℕ)
      → check_request net check origin ≡ ok (url, status)
      → Asked check origin url status
  unfolding check_request
  check_request-Asked check origin url status e =
      let (raw, t, e1) =
        step_returned (text_or check_crosses_origin (as_text (get "url" check))) _ e in
      let (same, s, e2) = step_returned (same_origin net raw origin) _ e1 in
      let (here, e3) = guard_passed (not same) check_crosses_origin _ e2 in
      let (n, i, e4) =
        step_returned (int_between 100 599 (get "expected_status" check) check_status_invalid) _
          e3 in
      let (url', c, e5) = step_returned (policy_or (canonical_target net.host (some raw))) _ e4 in
      let same_url : url' ≡ url = ground arith in
      let same_status : n ≡ status = ground arith in
      let is_same : same ≡ true = ground arith in
      record {
        raw = raw;
        of_check = text_or-some check_crosses_origin _ raw t;
        of_origin = s ∙ ap ok is_same;
        canonical = policy_or-ok _ url' c ∙ ap ok same_url;
        expected =
            int_between-int 100 599 n (get "expected_status" check) check_status_invalid i
            ∙ ap some same_status;
      }

  -- What is known of a response that was as expected.
  record Shown (status : ℕ) (expected : Json) (receipt : CheckReceipt) (answer : Option Response)
      : Type 0 where
    response : Response
    answered : answer ≡ some response
    same_status : response.status ≡ status
    receipt_status : receipt.status ≡ response.status
    subset :
        (expected ≡ null)
        ⊎ ((actual : Json) × (response.json ≡ some actual)
            × (check_subset net actual expected ≡ true))

  checked_response-subset :
      (url : String) (status : ℕ) (expected : Json) (response : Response) (receipt : CheckReceipt)
      → checked_response net url status expected (some response) ≡ ok receipt
      → (expected ≡ null)
        ⊎ ((actual : Json) × (response.json ≡ some actual)
            × (check_subset net actual expected ≡ true))
  unfolding checked_response response_or json_or
  checked_response-subset url status expected response receipt e =
      elim (Bool-cases (is_null net expected)) [
        | inl empty ↦ inl (null_of expected empty)
        | inr full ↦ elim (Option-cases response.json) [
          | inl gone ↦ absurd (ground arith)
          | inr (actual, given) ↦ inr (actual, given, ground arith)
        ]
      ]

  checked_response-Shown :
      (url : String) (status : ℕ) (expected : Json) (answer : Option Response)
      (receipt : CheckReceipt)
      → checked_response net url status expected answer ≡ ok receipt
      → Shown status expected receipt answer
  unfolding checked_response response_or
  checked_response-Shown url status expected none receipt e = absurd (ground arith)
  checked_response-Shown url status expected (some response) receipt e =
      let passed : (response.status == status) ≡ true = ground arith in
      let same = eq→path response.status status passed in
      record {
        response = response;
        answered = refl;
        same_status = same;
        receipt_status = ground arith;
        subset = checked_response-subset url status expected response receipt e;
      }

  pub readcheck-Passed :
      (check : Fields) (origin : String) (timeout_ms : ℕ) (before after : List Request)
      (receipt : CheckReceipt)
      → readcheck net check origin timeout_ms before ≡ (ok receipt, after)
      → Passed net check origin timeout_ms before receipt after
  unfolding readcheck sent_check
  readcheck-Passed check origin timeout_ms before after receipt e =
      elim (Result-cases (check_request net check origin)) [
        | inr (x, raised) ↦ absurd (ground arith)
        | inl ((url, status), asked) ↦
            let a = check_request-Asked check origin url status asked in
            let shown =
              checked_response-Shown url status (get "expected_json_subset" check)
                (net.respond before (read url timeout_ms)) receipt (ground arith) in
            record {
              raw = a.raw;
              url = url;
              response = shown.response;
              of_check = a.of_check;
              of_origin = a.of_origin;
              canonical = a.canonical;
              asked = ground arith;
              answered = shown.answered;
              expected = a.expected ∙ ap some (sym shown.same_status);
              receipt_status = shown.receipt_status;
              subset = shown.subset;
            }
      ]
