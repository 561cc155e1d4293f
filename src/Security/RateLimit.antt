-- ===== src/Security/RateLimit.antt =====
-- `AuthRateLimiter`. An identity is what `hash_identity` made of the client's host and the email,
-- the token or the user's id; `check` hashes it once more, by `digest`.
pub mod Window
pub mod Lockout
use student_knowledge_hub.Prelude.{
  ℕ, String, Bool, true, false, not, Option, none, some, List, [], ◌∷◌, ltb, leb, is_some, get_or,
  if◌then◌else◌,
}
use student_knowledge_hub.Service.{Result, ok, err, rate_limit_exceeded}
use student_knowledge_hub.Security.Keys.{Key, rate, login_fail, login_lock}
use student_knowledge_hub.Security.Store
use student_knowledge_hub.Security.Store.{Redis, Store, StoreSettings}

pub record RateSettings : Type 0 where
  pub rate_limit_enabled : Bool
  pub login_lockout_seconds : ℕ
  pub login_lockout_window_seconds : ℕ
  pub login_lockout_max_attempts : ℕ
  pub login_max_requests : ℕ
  pub login_window_seconds : ℕ

module _ {R : Type 0} (redis : Redis R) (settings : StoreSettings) (rates : RateSettings)
    (digest : ℕ → ℕ) where
  abbrev Limited : Type 0
  Limited = Store R → Result (Unit {0}) × Store R

  -- The exception with `retry_after or fallback`.
  abbrev refuse : String → ℕ → Option ℕ × Store R → Result (Unit {0}) × Store R
  refuse message fallback (retry_after, s) =
      (err (rate_limit_exceeded message (get_or retry_after fallback)), s)

  unfoldable pub check : ℕ → String → ℕ → ℕ → ℕ → Limited
  unfolding Store.is_available
  check now scope identity max_requests window_seconds s =
      if not rates.rate_limit_enabled
      then (ok tt, s)
      else if not (Store.is_available redis settings s)
      then (err (rate_limit_exceeded "Rate limiting store is unavailable" 0), s)
      else let key = rate scope (digest identity) in
        let (count, s') = Store.increment redis settings now key window_seconds s in
        if ltb max_requests count
        then refuse "Too many requests" window_seconds (Store.ttl redis settings now key s')
        else (ok tt, s')

  unfoldable pub check_login_rate : ℕ → ℕ → Limited
  unfolding check
  check_login_rate now identity =
      check now "auth.login" identity rates.login_max_requests rates.login_window_seconds

  unfoldable pub check_login_lockout : ℕ → ℕ → Limited
  check_login_lockout now identity s =
      if not rates.rate_limit_enabled
      then (ok tt, s)
      else let (locked, s') = Store.get redis settings now (login_lock identity) s in
        if is_some locked
        then refuse "Too many failed login attempts" rates.login_lockout_seconds
            (Store.ttl redis settings now (login_lock identity) s')
        else (ok tt, s')

  unfoldable pub record_login_failure : ℕ → ℕ → Limited
  record_login_failure now identity s =
      if not rates.rate_limit_enabled
      then (ok tt, s)
      else let (attempts, s') =
          Store.increment redis settings now (login_fail identity)
            rates.login_lockout_window_seconds s in
        if leb rates.login_lockout_max_attempts attempts
        then (
          err (rate_limit_exceeded "Too many failed login attempts" rates.login_lockout_seconds),
          Store.set redis settings now (login_lock identity) 1 rates.login_lockout_seconds s',
        )
        else (ok tt, s')

  unfoldable pub record_login_success : ℕ → Store R → Store R
  record_login_success identity =
      Store.delete redis settings (login_fail identity ∷ login_lock identity ∷ [])
