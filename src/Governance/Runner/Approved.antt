-- ===== src/Governance/Runner/Approved.antt =====
-- What an approval of a write is known to be.
use aios_tools.Prelude.{
  String, true, false, Option, none, some, ◌≡◌, ◌⊎◌, inl, inr, refl, arith, string_eq, eq_iff, ok,
  Option-cases, is_blank,
}
use aios_tools.Prelude.Json.{
  Json, null, boolean, number, other_number, text, array, object, Fields, get, is_text, is_true,
  as_text, as_object,
}
use aios_tools.Governance.Runner.{none_or, named, approval_error, write_approval_error}

-- An approval object with a name, for the tool and the scope where it names one.
pub record WriteApproved (authority_context : Fields) (tool scope : String) : Type 0 where
  pub approval : Fields
  pub given : as_object (get "approval" authority_context) ≡ some approval
  pub approved : get "approved" approval ≡ boolean true
  pub approved_by :
      (name : String) × (as_text (get "approved_by" approval) ≡ some name) × (is_blank name ≡ false)
  pub for_tool : (get "tool" approval ≡ null) ⊎ (get "tool" approval ≡ text tool)
  pub for_scope : (get "scope" approval ≡ null) ⊎ (get "scope" approval ≡ text scope)

is_true_boolean : (value : Json) → is_true value ≡ true → value ≡ boolean true
unfolding is_true
is_true_boolean (boolean true) h = refl
is_true_boolean (boolean false) h = absurd (ground arith)
is_true_boolean null h = absurd (ground arith)
is_true_boolean (number n) h = absurd (ground arith)
is_true_boolean other_number h = absurd (ground arith)
is_true_boolean (text s) h = absurd (ground arith)
is_true_boolean (array items) h = absurd (ground arith)
is_true_boolean (object fields) h = absurd (ground arith)

none_or_text :
    (value : Json) (expected : String)
    → none_or value expected ≡ true
    → (value ≡ null) ⊎ (value ≡ text expected)
unfolding none_or is_text
none_or_text null expected h = inl refl
none_or_text (text s) expected h = inr (ground (arith, eq_iff s expected))
none_or_text (boolean b) expected h = absurd (ground arith)
none_or_text (number n) expected h = absurd (ground arith)
none_or_text other_number expected h = absurd (ground arith)
none_or_text (array items) expected h = absurd (ground arith)
none_or_text (object fields) expected h = absurd (ground arith)

named_name :
    (t : Option String)
    → named t ≡ true
    → (name : String) × (t ≡ some name) × (is_blank name ≡ false)
unfolding named
named_name none h = absurd (ground arith)
named_name (some s) h = (s, refl, ground arith)

pub write_approval_error-WriteApproved :
    (authority_context : Fields) (tool scope : String)
    → write_approval_error authority_context tool scope ≡ ok tt
    → WriteApproved authority_context tool scope
unfolding write_approval_error approval_error
write_approval_error-WriteApproved authority_context tool scope e =
    elim (Option-cases (as_object (get "approval" authority_context))) [
      | inl gone ↦ absurd (ground arith)
      | inr (approval, given) ↦ record {
        approval = approval;
        given = given;
        approved = is_true_boolean (get "approved" approval) (ground arith);
        approved_by = named_name (as_text (get "approved_by" approval)) (ground arith);
        for_tool = none_or_text (get "tool" approval) tool (ground arith);
        for_scope = none_or_text (get "scope" approval) scope (ground arith);
      }
    ]
