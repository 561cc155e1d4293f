-- ===== src/Tests/Security.antt =====
-- The limiter and the revocation store over memory.
use student_knowledge_hub.Prelude.{
  ℕ, min, length, true, false, none, some, List, [], ◌∷◌, arith, ◌≡◌, refl,
}
use student_knowledge_hub.Service.{is_ok}
use student_knowledge_hub.Hub.Tables.{student}
use student_knowledge_hub.Security.Keys.{login_fail, key_eq, lookup}
use student_knowledge_hub.Security.Store.{
  Redis, Store, StoreSettings, allow_memory_fallback, delete_if_expired,
}
use student_knowledge_hub.Security.RateLimit.{
  RateSettings, check_login_lockout, record_login_failure,
}
use student_knowledge_hub.Security.RateLimit.Lockout.{IsMemoryOnly, failures, failures_locked}
use student_knowledge_hub.Security.RateLimit.Window.{InMemory, accepted, accepted_in_window}
use student_knowledge_hub.Security.Revocation.{
  Claims, RevocationSettings, revoke_claims, revoke_all_for_user, ensure_not_revoked,
}
use student_knowledge_hub.Security.Revocation.Laws.{
  IsInMemory, revoke_claims-refused, revoke_all_for_user-refused,
}

-- A server that forgets everything; it is not connected here.
abbrev redis : Redis (Unit {0})
redis = record {
  get = λ _ _ _. none;
  set = λ _ _ _ _ r. r;
  delete = λ _ r. r;
  incr = λ _ _ r. (1, r);
  expire = λ _ _ _ r. r;
  ttl = λ _ _ _. none;
}

abbrev settings : StoreSettings
settings = record { rate_limit_in_memory_fallback = true; is_production = false }

abbrev rates : RateSettings
rates = record {
  rate_limit_enabled = true;
  login_lockout_seconds = 900;
  login_lockout_window_seconds = 900;
  login_lockout_max_attempts = 5;
  login_max_requests = 2;
  login_window_seconds = 60;
}

abbrev empty_store : Store (Unit {0})
empty_store = record { client = none; memory = [] }

empty-InMemory : InMemory redis settings rates (λ n. n) "login" 7 2 60 empty_store
unfolding allow_memory_fallback
empty-InMemory = record { no_client = refl; fallback = refl; enabled = refl }

abbrev times : List ℕ
times = 110 ∷ 120 ∷ 130 ∷ []

-- Four requests within a minute, of which two pass.
accepted_in_window_example :
    (accepted redis settings rates (λ n. n) "login" 7 2 60 (100 ∷ times) empty_store).0
    ≡ min (length (100 ∷ times)) 2
unfolding delete_if_expired lookup
accepted_in_window_example =
    accepted_in_window redis settings rates (λ n. n) "login" 7 2 60 100 times empty_store
      empty-InMemory refl (omega arith, (omega arith, (omega arith, tt)))

abbrev revocation : RevocationSettings
revocation = record { access_token_revocation_enabled = true; access_token_expire_minutes = 15 }

abbrev claims : Claims
claims = record { sub = 2; role = student; type = "access"; jti = 9; iat = 100; exp = 1000 }

empty-IsInMemory : IsInMemory redis settings revocation empty_store
unfolding allow_memory_fallback
empty-IsInMemory = record { no_client = refl; fallback = refl; enabled = refl }

revoke_claims-refused_example :
    let (_, s') = revoke_claims redis settings revocation true 200 claims empty_store in
    is_ok (ensure_not_revoked redis settings revocation 998 claims s').0 ≡ false
revoke_claims-refused_example =
    revoke_claims-refused redis settings revocation true 200 998 claims empty_store empty-IsInMemory
      (omega arith) (omega arith)

revoke_all_for_user-refused_example :
    let (_, s') = revoke_all_for_user redis settings revocation 200 2 empty_store in
    is_ok (ensure_not_revoked redis settings revocation 999 claims s').0 ≡ false
revoke_all_for_user-refused_example =
    revoke_all_for_user-refused redis settings revocation 200 999 claims empty_store
      empty-IsInMemory (omega arith) (omega arith)

-- One failure has been counted; three more come, and a fifth at 140.
abbrev failed_once : Store (Unit {0})
failed_once = record { client = none; memory = (login_fail 7, (1, some 1000)) ∷ [] }

failed_once-IsMemoryOnly : IsMemoryOnly redis settings rates (λ n. n) 7 failed_once
unfolding allow_memory_fallback
failed_once-IsMemoryOnly = record { no_client = refl; fallback = refl; enabled = refl }

failures_locked_example :
    let (r, s') =
      record_login_failure redis settings rates
        (λ n. n)
        140
        7
        (failures redis settings rates (λ n. n) 7 times failed_once) in
    (is_ok r ≡ false)
    × (is_ok (check_login_lockout redis settings rates (λ n. n) 1039 7 s').0 ≡ false)
unfolding lookup key_eq
failures_locked_example =
    failures_locked redis settings rates (λ n. n) 7 times 1 1000 140 1039 failed_once
      failed_once-IsMemoryOnly refl (omega arith, (omega arith, (omega arith, tt))) (omega arith)
      (omega arith) (omega arith)
