-- ===== src/Gateway/Security/Keys.antt =====
-- No sensitive key survives the sanitation.
use llm_dashboard.Base.{
  ℕ, ◌≡◌, refl, Bool, true, false, Option, none, some, List, [], ◌∷◌, String, str_eq, All,
  Bool-cases, Option-cases, ltb, length, inl, inr,
}
use llm_dashboard.Gateway.World.{Meta, text, flag, score, CallRequest}
use llm_dashboard.Gateway.Security.{
  Models, Metadata, put, strip, is_sensitive, record_injection, record_checks, Entity, check_prompt,
  prompt_of, sanitize_metadata, sanitize_request, anonymize_text, detect_prompt_injection,
}

-- No key of the dict reads as a sensitive one in lower case.
abbrev pub IsClean : (String → String) → Metadata → Type 0
IsClean lower d = All (λ e. is_sensitive (lower e.0) ≡ false) d

strip-IsClean : (lower : String → String) (d : Metadata) → IsClean lower (strip lower d)
unfolding strip
strip-IsClean lower [] = tt
strip-IsClean lower (e ∷ d) = elim (Bool-cases (is_sensitive (lower e.0))) [
  | inl bad ↦ rw bad (strip-IsClean lower d)
  | inr good ↦ rw good (good, strip-IsClean lower d)
]

put-IsClean :
    (lower : String → String) (k : String) (v : Meta) (d : Metadata)
    → is_sensitive (lower k) ≡ false
    → IsClean lower d
    → IsClean lower (put k v d)
unfolding put
put-IsClean lower k v [] good h = (good, tt)
put-IsClean lower k v (e ∷ d) good h = elim (Bool-cases (str_eq e.0 k)) [
  | inl same ↦ rw same h
  | inr other ↦ rw other (h.0, put-IsClean lower k v d good h.1)
]

-- What `str.lower` does to the keys that the code itself writes: it leaves lower-case texts alone.
pub record KeepsOwnKeys (lower : String → String) : Type 0 where
  pub prompt : lower "prompt" ≡ "prompt"
  pub pii : lower "_pii_detected" ≡ "_pii_detected"
  pub flagged : lower "_injection_flagged" ≡ "_injection_flagged"
  pub score : lower "_injection_score" ≡ "_injection_score"

own_keys :
    (lower : String → String)
    → KeepsOwnKeys lower
    → (is_sensitive (lower "prompt") ≡ false)
      × (is_sensitive (lower "_pii_detected") ≡ false)
      × (is_sensitive (lower "_injection_flagged") ≡ false)
      × (is_sensitive (lower "_injection_score") ≡ false)
unfolding is_sensitive
own_keys lower h = (rw (h.prompt) refl, rw (h.pii) refl, rw (h.flagged) refl, rw (h.score) refl)

record_injection-IsClean :
    (lower : String → String) (o : Option (Bool × ℕ)) (d : Metadata)
    → KeepsOwnKeys lower
    → IsClean lower d
    → IsClean lower (record_injection o d)
unfolding record_injection
record_injection-IsClean lower none d k h = h
record_injection-IsClean lower (some (false, sc)) d k h = h
record_injection-IsClean lower (some (true, sc)) d k h =
    let (_, _, r, s) = own_keys lower k in
    put-IsClean lower "_injection_score" (score sc) _ s
      (put-IsClean lower "_injection_flagged" (flag true) d r h)

record_checks-IsClean :
    (lower : String → String) (a : Option (String × List Entity)) (o : Option (Bool × ℕ))
    (d : Metadata)
    → KeepsOwnKeys lower
    → IsClean lower d
    → IsClean lower (record_checks a o d)
unfolding record_checks
record_checks-IsClean lower none o d k h = h
record_checks-IsClean lower (some (scrubbed, items)) o d k h =
    let (p, q, _, _) = own_keys lower k in
    record_injection-IsClean lower o _ k (
      put-IsClean lower "_pii_detected" (flag (ltb 0 (length items))) _ q
        (put-IsClean lower "prompt" (text scrubbed) d p h))

sanitize_metadata-IsClean :
    (m : Models) (d : Metadata) → KeepsOwnKeys m.lower → IsClean m.lower (sanitize_metadata m d)
unfolding sanitize_metadata check_prompt
sanitize_metadata-IsClean m [] k = tt
sanitize_metadata-IsClean m (e ∷ d) k =
    let kept = strip m.lower (e ∷ d) in
    let clean = strip-IsClean m.lower (e ∷ d) in
    elim (Option-cases (prompt_of kept)) [
      | inl p ↦ rw (p, sanitize_metadata) clean
      | inr (prompt, p) ↦
          rw (p, sanitize_metadata)
            (record_checks-IsClean m.lower (anonymize_text m prompt)
              (detect_prompt_injection m prompt) kept k clean)
    ]

-- Where the security service runs, no key of the metadata that goes on to storage is, in lower
-- case, one of the seven sensitive keys, whatever the models answer or fail on.
pub sanitize_request-IsClean :
    (m : Models) (r : CallRequest)
    → KeepsOwnKeys m.lower
    → IsClean m.lower (sanitize_request (some m) r).metadata
unfolding sanitize_request
sanitize_request-IsClean m r k = sanitize_metadata-IsClean m r.metadata k
