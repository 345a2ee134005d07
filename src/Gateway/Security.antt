-- ===== src/Gateway/Security.antt =====
-- The sanitation of a request: the wrappers round Presidio and the injection classifier
-- (modules/gateway/services/security_service.py) and _sanitize_request of
-- modules/gateway/services/gateway_service.py. The analyzer, the anonymizer, the classifier and
-- the changes of case are parameters; `none` is an exception. Metadata is a dict in insertion order.
pub mod Keys
use llm_dashboard.Base.{
  ℕ, Bool, true, false, not, ◌&&◌, ◌||◌, Option, none, some, List, [], ◌∷◌, String, str_eq, ltb,
  length, if◌then◌else◌,
}
use llm_dashboard.Gateway.Rules.{truthy_text}
use llm_dashboard.Gateway.World.{Meta, text, flag, score, CallRequest}

pub record Entity : Type 0 where
  pub entity_type : String
  pub start : ℕ
  pub end : ℕ

-- The models that the service loads; `classifier` is missing if it could not be loaded.
pub record Models : Type 0 where
  pub analyze : String → Option (List Entity)
  pub anonymize : String → List Entity → Option String
  pub classifier : Option (String → Option (String × ℕ))
  pub upper : String → String
  pub lower : String → String

unfoldable pub anonymize_text : Models → String → Option (String × List Entity)
anonymize_text m s = if str_eq s "" then some ("", []) else elim (m.analyze s) [
  | none ↦ none
  | some results ↦ elim (m.anonymize s results) [
    | none ↦ none
    | some scrubbed ↦ some (scrubbed, results)
  ]
]

unfoldable pub detect_prompt_injection : Models → String → Option (Bool × ℕ)
detect_prompt_injection m s = if str_eq s "" then some (false, 0) else elim (m.classifier) [
  | none ↦ some (false, 0)
  | some classify ↦ elim (classify s) [
    | none ↦ none
    | some (label, sc) ↦
        some (str_eq (m.upper label) "INJECTION" || str_eq (m.upper label) "LABEL_1", sc)
  ]
]

abbrev pub Metadata : Type 0
Metadata = List (String × Meta)

-- `metadata.get(k)`
unfoldable pub get : String → Metadata → Option Meta
get k [] = none
get k ((j, v) ∷ d) = if str_eq j k then some v else get k d

-- `metadata[k] = v`
unfoldable pub put : String → Meta → Metadata → Metadata
put k v [] = (k, v) ∷ []
put k v ((j, u) ∷ d) = if str_eq j k then (j, v) ∷ d else (j, u) ∷ put k v d

unfoldable pub is_sensitive : String → Bool
is_sensitive k =
    str_eq k "password"
    || (str_eq k "token"
        || (str_eq k "api_key"
            || (str_eq k "secret"
                || (str_eq k "authorization"
                    || (str_eq k "credential" || str_eq k "private_key")))))

unfoldable pub strip : (String → String) → Metadata → Metadata
unfolding is_sensitive
strip lower [] = []
strip lower ((k, v) ∷ d) =
    let rest = strip lower d in if is_sensitive (lower k) then rest else (k, v) ∷ rest

-- The flags of a detected injection; an exception of the detection sets none.
unfoldable pub record_injection : Option (Bool × ℕ) → Metadata → Metadata
unfolding put
record_injection none d = d
record_injection (some (false, sc)) d = d
record_injection (some (true, sc)) d =
    put "_injection_score" (score sc) (put "_injection_flagged" (flag true) d)

-- The `try` block on the prompt: what was set before an exception stays set.
unfoldable pub record_checks :
    Option (String × List Entity) → Option (Bool × ℕ) → Metadata → Metadata
unfolding put record_injection
record_checks none injection d = d
record_checks (some (scrubbed, items)) injection d =
    record_injection injection
      (put "_pii_detected" (flag (ltb 0 (length items))) (put "prompt" (text scrubbed) d))

unfoldable pub check_prompt : Models → String → Metadata → Metadata
unfolding anonymize_text detect_prompt_injection record_checks
check_prompt m prompt d =
    record_checks (anonymize_text m prompt) (detect_prompt_injection m prompt) d

-- The non-empty text under "prompt", if there is one.
unfoldable pub prompt_of : Metadata → Option String
unfolding get
prompt_of d = elim (get "prompt" d) [
  | none ↦ none
  | some v ↦ elim v [ text s ↦ truthy_text (some s) | _ ↦ none ]
]

unfoldable pub sanitize_metadata : Models → Metadata → Metadata
unfolding strip check_prompt prompt_of
sanitize_metadata m [] = []
sanitize_metadata m (e ∷ d) =
    let kept = strip m.lower (e ∷ d) in
    elim (prompt_of kept) [ none ↦ kept | some prompt ↦ check_prompt m prompt kept ]

unfoldable pub sanitize_error : Models → Option String → Option String
unfolding anonymize_text
sanitize_error m o = elim (truthy_text o) [
  | none ↦ o
  | some s ↦ elim (anonymize_text m s) [ none ↦ o | some (scrubbed, _) ↦ some scrubbed ]
]

-- Without the service the request passes as it is.
unfoldable pub sanitize_request : Option Models → CallRequest → CallRequest
unfolding sanitize_metadata sanitize_error
sanitize_request none r = r
sanitize_request (some m) r = record r {
  error_message = sanitize_error m r.error_message;
  metadata = sanitize_metadata m r.metadata;
}
