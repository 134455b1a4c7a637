-- ===== src/Debrief/Event.antt =====
-- src/aios_tools/experimental/daily_debrief_adapter.py: `validate_finding_event` and the checks that
-- it makes. The canonical JSON text, SHA-256, `str.lower` and `json.loads` enter as `Canon`.
use Prim.Native.Char.{code}
use Prim.Native.String.{◌++◌}
use aios_tools.Prelude.{
  ℕ, String, suc, Bool, false, not, ◌&&◌, ◌||◌, Option, List, [], ◌∷◌, leb, string_eq, nat_eq, ◌==◌,
  contains, if◌then◌else◌, Result, ok, err, raise_if, ◌>>=◌, ◌>>◌, is_blank, strip,
}
use aios_tools.Prelude.Json.{
  Json, null, text, array, object, Fields, end, field, Items, no_items, item, get, is_text,
}
use aios_tools.Prelude.Order.{text_le}
use aios_tools.Prelude.Sort.{sorted}

-- The codes of a `DailyDebriefAdapterError`.
pub data DebriefError : Type 0 where
  event_not_object unknown_event_schema unknown_event_type unsupported_authority_claim
        source_provider_missing source_identity_missing source_revision_missing debrief_date_missing
        title_missing disposition_missing confidence_missing implementation_consequence_missing
        validation_state_missing source_digest_invalid scope_unresolved finding_id_invalid
        lineage_invalid remaining_test_ids_invalid resolved_test_ids_invalid test_id_conflict
        event_id_missing event_digest_mismatch :
      DebriefError

-- `canonical_json_bytes` as text, the digest of a text, `str.lower` and `json.loads`.
pub record Canon : Type 0 where
  pub text_of : Fields → String
  pub sha256 : String → String
  pub lower : String → String
  pub loads : String → Option Json

-- `FORBIDDEN_AUTHORITY_KEYS`
unfoldable pub forbidden_authority_keys : List String
forbidden_authority_keys =
    "authority" ∷ "authority_transfer" ∷ "canon" ∷ "canonical" ∷ "trusted_memory"
    ∷ "active_capability" ∷ "runtime_activation" ∷ "repository_mutation" ∷ "merge_authorized"
    ∷ "deployment_authorized" ∷ []

-- `_reject_authority_claims`: whether a forbidden key stands anywhere in the value.
unfoldable mutual
  unfolding forbidden_authority_keys

  pub claims_authority : Json → Bool
  claims_authority (object fields) = fields_claim fields
  claims_authority (array items) = items_claim items
  claims_authority _ = false

  pub fields_claim : Fields → Bool
  fields_claim end = false
  fields_claim (field key value rest) =
      contains forbidden_authority_keys key || claims_authority value || fields_claim rest

  pub items_claim : Items → Bool
  items_claim no_items = false
  items_claim (item value rest) = claims_authority value || items_claim rest

-- `_require_nonempty_string`
unfoldable pub require_named : Json → DebriefError → Result DebriefError String
require_named (text s) e = if is_blank s then err e else ok (strip s)
require_named _ e = err e

is_alnum : ℕ → Bool
is_alnum c = leb 48 c && leb c 57 || leb 65 c && leb c 90 || leb 97 c && leb c 122

-- `[A-Za-z0-9._:/-]`: the marks are `-`, `.`, `/`, `_` and `:`
is_id_char : ℕ → Bool
unfolding is_alnum
is_id_char c = is_alnum c || leb 45 c && leb c 47 || c == 58 || c == 95

-- The rest of an identifier, after the first `n` characters.
is_id_rest : ℕ → String → Bool
unfolding is_id_char
is_id_rest n String.[] = leb n 128
is_id_rest n (String.◌∷◌ c s) = is_id_char (code c) && is_id_rest (suc n) s

-- `_ID_RE.fullmatch(value)`
unfoldable pub is_identifier : String → Bool
unfolding is_alnum is_id_rest
is_identifier String.[] = false
is_identifier (String.◌∷◌ c s) = is_alnum (code c) && is_id_rest 1 s

-- `_require_identifier`
unfoldable pub require_identifier : Json → DebriefError → Result DebriefError String
require_identifier value e = do
  id ← require_named value e
  raise_if (not (is_identifier id)) e
  ok id

is_hex_char : ℕ → Bool
is_hex_char c = leb 48 c && leb c 57 || leb 97 c && leb c 102

is_hex_from : ℕ → String → Bool
unfolding is_hex_char
is_hex_from n String.[] = n == 64
is_hex_from n (String.◌∷◌ c s) = is_hex_char (code c) && is_hex_from (suc n) s

-- `_SHA256_RE.fullmatch(value)`
unfoldable pub is_sha256 : String → Bool
unfolding is_hex_from
is_sha256 s = is_hex_from 0 s

identifiers_from : List String → Items → DebriefError → Result DebriefError (List String)
identifiers_from seen no_items e = ok []
identifiers_from seen (item value rest) e = do
  id ← require_identifier value e
  raise_if (contains seen id) e
  ids ← identifiers_from (id ∷ seen) rest e
  ok (id ∷ ids)

sorted_ids : Result DebriefError (List String) → Result DebriefError (List String)
sorted_ids ids = do own ← ids; ok (sorted text_le own)

-- `_require_identifier_list`
unfoldable pub require_identifiers : Json → DebriefError → Result DebriefError (List String)
unfolding identifiers_from sorted_ids
require_identifiers null e = ok []
require_identifiers (array items) e = sorted_ids (identifiers_from [] items e)
require_identifiers _ e = err e

-- `set(xs).intersection(ys)` is not empty
unfoldable pub overlaps : List String → List String → Bool
overlaps [] ys = false
overlaps (x ∷ xs) ys = contains ys x || overlaps xs ys

-- The event without its own id.
unfoldable pub unsigned : Fields → Fields
unsigned end = end
unsigned (field key value rest) =
    let others = unsigned rest in if key == "event_id" then others else field key value others

-- `_require_nonempty_string(event.get(key), code)`, for each pair in turn
require_fields : List (String × DebriefError) → Fields → Result DebriefError Unit
require_fields [] event = ok tt
require_fields ((key, code) ∷ rest) event = do
  _ ← require_named (get key event) code
  require_fields rest event

event_fields : List (String × DebriefError)
event_fields =
    ("source_provider", source_provider_missing)
    ∷ ("source_id", source_identity_missing)
    ∷ ("source_revision", source_revision_missing)
    ∷ ("debrief_date", debrief_date_missing)
    ∷ ("title", title_missing)
    ∷ ("disposition", disposition_missing)
    ∷ ("confidence", confidence_missing)
    ∷ ("implementation_consequence", implementation_consequence_missing)
    ∷ ("validation_state", validation_state_missing)
    ∷ []

module _ (canon : Canon) where
  -- `_require_sha256`
  unfoldable pub require_sha256 : Json → DebriefError → Result DebriefError String
  require_sha256 value e = do
    s ← require_named value e
    raise_if (not (is_sha256 (canon.lower s))) e
    ok (canon.lower s)

  -- The id that an event must bear: `"ddf_" + canonical_sha256(event)`
  unfoldable pub event_id_for : Fields → String
  event_id_for fields = "ddf_" ++ canon.sha256 (canon.text_of fields)

  -- `validate_finding_event` of a dict
  unfoldable pub validate_event : Fields → Result DebriefError Unit
  unfolding event_fields require_fields
  validate_event event = do
    raise_if (not (is_text (get "schema_version" event) "daily-debrief-finding-event/v1"))
        unknown_event_schema
    raise_if (not (is_text (get "event_type" event) "daily_debrief.finding")) unknown_event_type
    raise_if (fields_claim event) unsupported_authority_claim
    require_fields event_fields event
    _ ← require_sha256 (get "source_digest" event) source_digest_invalid
    _ ← require_identifier (get "scope_key" event) scope_unresolved
    _ ← require_identifier (get "finding_id" event) finding_id_invalid
    _ ← require_identifier (get "lineage" event) lineage_invalid
    remaining ← require_identifiers (get "remaining_test_ids" event) remaining_test_ids_invalid
    resolved ← require_identifiers (get "resolved_test_ids" event) resolved_test_ids_invalid
    raise_if (overlaps remaining resolved) test_id_conflict
    supplied ← require_named (get "event_id" event) event_id_missing
    raise_if (not (supplied == event_id_for (unsigned event))) event_digest_mismatch

  -- `validate_finding_event`
  unfoldable pub validate_finding_event : Json → Result DebriefError Unit
  validate_finding_event (object event) = validate_event event
  validate_finding_event _ = err event_not_object
