-- ===== src/Security/RateLimit/Lockout.antt =====
-- The lockout of logins over the memory fallback.
use student_knowledge_hub.Prelude.{
  ℕ, ◌+◌, ◌≤◌, ◌<◌, max, true, false, none, some, List, [], ◌∷◌, All, length, ltb, ◌≡◌, arith,
}
use student_knowledge_hub.Service.{Result, is_ok}
use student_knowledge_hub.Security.Keys.{
  login_fail, login_lock, lookup, put, key_eq, lookup-put, key_eq_refl,
}
use student_knowledge_hub.Security.Store
use student_knowledge_hub.Security.Store.{
  Redis, Store, StoreSettings, Memory, allow_memory_fallback, delete_if_expired,
}
use student_knowledge_hub.Security.RateLimit.{
  RateSettings, check_login_lockout, record_login_failure,
}

module _ {R : Type 0} (redis : Redis R) (settings : StoreSettings) (rates : RateSettings)
    (digest : ℕ → ℕ) (identity : ℕ) where
  pub record IsMemoryOnly (s : Store R) : Type 0 where
    pub no_client : s.client ≡ none
    pub fallback : allow_memory_fallback settings ≡ true
    pub enabled : rates.rate_limit_enabled ≡ true

  abbrev fail : ℕ → Store R → Result (Unit {0}) × Store R
  fail t s = record_login_failure redis settings rates digest t identity s

  -- The store after failures at the given times, in order.
  unfoldable pub failures : List ℕ → Store R → Store R
  failures [] s = s
  failures (t ∷ ts) s = failures ts (fail t s).1

  failure_counted :
      (t c e : ℕ) (s : Store R)
      → IsMemoryOnly s
      → lookup (login_fail identity) s.memory ≡ some (c, some e)
      → t < e
      → (is_ok (fail t s).0 ≡ ltb (c + 1) rates.login_lockout_max_attempts)
        × IsMemoryOnly (fail t s).1
        × (lookup (login_fail identity) (fail t s).1.memory ≡ some (c + 1, some e))
  unfolding record_login_failure Store.increment Store.set key_eq
  failure_counted t c e s m there live =
      let counted = put (login_fail identity) (c + 1, some e) s.memory in
      ground (
        arith,
        key_eq_refl (login_fail identity),
        lookup-put (login_fail identity) (login_fail identity) (c + 1, some e) s.memory,
        lookup-put (login_lock identity) (login_fail identity)
            (1, some (t + max rates.login_lockout_seconds 1)) counted,
      )

  locked_after :
      (t c e later : ℕ) (s : Store R)
      → IsMemoryOnly s
      → lookup (login_fail identity) s.memory ≡ some (c, some e)
      → t < e
      → rates.login_lockout_max_attempts ≤ c + 1
      → later < t + max rates.login_lockout_seconds 1
      → is_ok (check_login_lockout redis settings rates digest later identity (fail t s).1).0
        ≡ false
  unfolding record_login_failure check_login_lockout Store.increment Store.set Store.get key_eq
  locked_after t c e later s m there live enough soon =
      let counted = put (login_fail identity) (c + 1, some e) s.memory in
      ground (
        arith,
        key_eq_refl (login_lock identity),
        lookup-put (login_lock identity) (login_lock identity)
            (1, some (t + max rates.login_lockout_seconds 1)) counted,
      )

  failures_counted :
      (ts : List ℕ) (c e : ℕ) (s : Store R)
      → IsMemoryOnly s
      → lookup (login_fail identity) s.memory ≡ some (c, some e)
      → All (λ t. t < e) ts
      → IsMemoryOnly (failures ts s)
        × (lookup (login_fail identity) (failures ts s).memory ≡ some (c + length ts, some e))
  unfolding failures
  failures_counted [] c e s m there live = (m, ground (arith, there))
  failures_counted (t ∷ ts) c e s m there live =
      let step = failure_counted t c e s m there live.0 in
      let rest = failures_counted ts (c + 1) e (fail t s).1 step.1 step.2 live.1 in
      let sum : c + 1 + length ts ≡ c + length (t ∷ ts) = omega arith in
      (rest.0, ground (arith, rest.1, sum))

  -- While a count of failed logins is running, the failure that brings it to the maximum is answered by
  -- an error, and from then on, for the time of a lockout, every check of the same identity is too.
  pub failures_locked :
      (ts : List ℕ) (c e t later : ℕ) (s : Store R)
      → IsMemoryOnly s
      → lookup (login_fail identity) s.memory ≡ some (c, some e)
      → All (λ t'. t' < e) ts
      → t < e
      → rates.login_lockout_max_attempts ≤ c + length ts + 1
      → later < t + max rates.login_lockout_seconds 1
      → (is_ok (fail t (failures ts s)).0 ≡ false)
        × (is_ok
              (check_login_lockout redis settings rates digest later identity
                (fail t (failures ts s)).1).0
            ≡ false)
  failures_locked ts c e t later s m there live now enough soon =
      let (m', there') = failures_counted ts c e s m there live in
      let step = failure_counted t (c + length ts) e (failures ts s) m' there' now in
      (
        ground (arith, step.0),
        locked_after t (c + length ts) e later (failures ts s) m' there' now enough soon,
      )
