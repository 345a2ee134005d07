-- ===== src/Tests/Vault.antt =====
-- Sessions and credentials at concrete inputs.
use llm_dashboard.Base.{ℕ, ◌≡◌, refl, none, some, List, [], ◌∷◌, String, map}
use llm_dashboard.Tenants.{
  Fernet, get_decrypted_credential, is_credential, scalar_one_or_none, set_credential,
  delete_credential, with_key,
}
use llm_dashboard.Tenants.Credentials.{
  VaultOp, sets, deletes, run, step, after, rows_of, IsCipher, last_key, entry, run-last_key,
}
use llm_dashboard.Tracing.{SessionCall, completed, get_by_session_id, duration_of}
use llm_dashboard.Tracing.Totals.{
  SessionOp, calls, ends, totals_of, calls_to, tenants_of, total, run-totals,
}
use llm_dashboard.Tracing.Totals.{run as run_sessions}

-- A cipher that remembers the text, with one draw for one ciphertext.
abbrev plain : Fernet ℕ
plain = record { encrypt = λ draw s. s; decrypt = λ s. some s }

plain-IsCipher : IsCipher plain
plain-IsCipher draw key = refl

abbrev ops : List (VaultOp ℕ)
ops =
    sets "c1" 1 "acme" "openai" "sk-1"
    ∷ sets "c2" 2 "globex" "openai" "sk-2"
    ∷ sets "c3" 3 "acme" "openai" "sk-3"
    ∷ deletes "globex" "openai"
    ∷ []

run-last_key_example :
    get_decrypted_credential plain "acme" "openai" (run plain ops []) ≡ some (some "sk-3")
unfolding last_key entry
run-last_key_example = run-last_key plain plain-IsCipher "acme" "openai" ops

one_row_left : map (λ r. r.id) (run plain ops []) ≡ "c1" ∷ []
unfolding run step after rows_of set_credential delete_credential scalar_one_or_none is_credential
    with_key
one_row_left = refl

abbrev call : String → ℕ → ℕ → SessionCall
call tenant log tokens = record {
  session_id = "s1";
  tenant_id = tenant;
  log_id = log;
  tokens = tokens;
  cost = 10;
  duration = some 5;
  agent_id = none;
  user_id = none;
}

abbrev session_ops : List SessionOp
session_ops =
    calls 1 "u1" (call "acme" 1 100)
    ∷ ends 2 "s1" completed
    ∷ calls 3 "u2" (call "globex" 2 50)
    ∷ []

run-totals_example :
    let t = totals_of (get_by_session_id "s1" (run_sessions session_ops [])) in
    (t.owner ≡ some "acme")
    × (t.number ≡ 2)
    × (t.tokens ≡ 150)
    × (t.cost ≡ 20)
    × (t.duration ≡ 10)
    × (t.chain ≡ 1 ∷ 2 ∷ [])
unfolding calls_to tenants_of total duration_of
run-totals_example = run-totals "s1" session_ops
