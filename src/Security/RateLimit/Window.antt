-- ===== src/Security/RateLimit/Window.antt =====
-- `AuthRateLimiter.check` over the memory fallback, request by request.
use student_knowledge_hub.Prelude.{
  ℕ, suc, ◌+◌, ◌-◌, ◌<◌, min, max, String, true, none, some, List, [], ◌∷◌, All, length, leb,
  if◌then◌else◌, ◌≡◌, arith,
}
use student_knowledge_hub.Service.{is_ok}
use student_knowledge_hub.Security.Keys.{Key, rate, lookup, lookup-put, key_eq_refl}
use student_knowledge_hub.Security.Store
use student_knowledge_hub.Security.Store.{
  Redis, Store, StoreSettings, Memory, allow_memory_fallback, delete_if_expired,
}
use student_knowledge_hub.Security.RateLimit.{RateSettings, check}

module _ {R : Type 0} (redis : Redis R) (settings : StoreSettings) (rates : RateSettings)
    (digest : ℕ → ℕ) (scope : String) (identity max_requests window : ℕ) where
  abbrev key : Key
  key = rate scope (digest identity)

  -- No Redis is connected, and the fallback is allowed.
  pub record InMemory (s : Store R) : Type 0 where
    pub no_client : s.client ≡ none
    pub fallback : allow_memory_fallback settings ≡ true
    pub enabled : rates.rate_limit_enabled ≡ true

  -- The requests at the given times, in order, and how many of them the limiter lets through.
  unfoldable pub accepted : List ℕ → Store R → ℕ × Store R
  accepted [] s = (0, s)
  accepted (t ∷ ts) s =
      let (r, s') = check redis settings rates digest t scope identity max_requests window s in
      let (n, s'') = accepted ts s' in (if is_ok r then suc n else n, s'')

  check_counted :
      (t c e : ℕ) (s : Store R)
      → InMemory s
      → lookup key s.memory ≡ some (c, some e)
      → t < e
      → let (r, s') = check redis settings rates digest t scope identity max_requests window s in
        (is_ok r ≡ leb (c + 1) max_requests)
        × (InMemory s')
        × (lookup key s'.memory ≡ some (c + 1, some e))
  unfolding check Store.increment Store.ttl
  check_counted t c e s m there live =
      ground (arith, key_eq_refl key, lookup-put key key (c + 1, some e) s.memory)

  -- Where no count is running: none was begun, or its time is over.
  abbrev pub IsFresh : ℕ → Store R → Type 0
  IsFresh t s = lookup key (delete_if_expired t key s.memory) ≡ none

  check_fresh :
      (t : ℕ) (s : Store R)
      → InMemory s
      → IsFresh t s
      → let (r, s') = check redis settings rates digest t scope identity max_requests window s in
        (is_ok r ≡ leb 1 max_requests)
        × (InMemory s')
        × (lookup key s'.memory ≡ some (1, some (t + max window 1)))
  unfolding check Store.increment Store.ttl
  check_fresh t s m fresh = ground (
    arith,
    key_eq_refl key,
    lookup-put key key (1, some (t + max window 1)) (delete_if_expired t key s.memory),
  )

  accepted_counted :
      (ts : List ℕ) (c e : ℕ) (s : Store R)
      → InMemory s
      → lookup key s.memory ≡ some (c, some e)
      → All (λ t. t < e) ts
      → (accepted ts s).0 ≡ min (length ts) (max_requests - c)
  unfolding accepted
  accepted_counted [] c e s m there live = omega arith
  accepted_counted (t ∷ ts) c e s m there live =
      let (r, s') = check redis settings rates digest t scope identity max_requests window s in
      let step = check_counted t c e s m there live.0 in
      ground (arith, step.0, accepted_counted ts (c + 1) e s' step.1 step.2 live.1)

  -- From the first request of a window to its end, whatever the times between, exactly the first
  -- `max_requests` pass and the others are refused.
  pub accepted_in_window :
      (t : ℕ) (ts : List ℕ) (s : Store R)
      → InMemory s
      → IsFresh t s
      → All (λ t'. t' < t + max window 1) ts
      → (accepted (t ∷ ts) s).0 ≡ min (length (t ∷ ts)) max_requests
  unfolding accepted
  accepted_in_window t ts s m fresh live =
      let (r, s') = check redis settings rates digest t scope identity max_requests window s in
      let step = check_fresh t s m fresh in
      ground (arith, step.0, accepted_counted ts 1 (t + max window 1) s' step.1 step.2 live)
