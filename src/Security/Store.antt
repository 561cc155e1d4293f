-- ===== src/Security/Store.antt =====
-- `SecurityKeyValueStore`. A value is a number, kept as its decimal text: a count, "1" for a mark,
-- or a time stamp. A time is a number of seconds.
use student_knowledge_hub.Prelude.{
  ℕ, ◌+◌, ◌-◌, max, Bool, false, not, ◌&&◌, Option, none, some, List, [], ◌∷◌, ◌==◌, leb, is_some,
  get_or, if◌then◌else◌, ◌||◌,
}
use student_knowledge_hub.Security.Keys.{Key, lookup, pop, put}

-- The calls of the Redis client, over the state of the server at a time; `ttl` is `none` where the
-- server answers zero or less.
pub record Redis (R : Type 0) : Type 0 where
  pub get : ℕ → Key → R → Option ℕ
  pub set : ℕ → Key → ℕ → (ex : ℕ) → R → R
  pub delete : List Key → R → R
  pub incr : ℕ → Key → R → ℕ × R
  pub expire : ℕ → Key → ℕ → R → R
  pub ttl : ℕ → Key → R → Option ℕ

-- `_memory_store`: each value with the time at which it expires.
abbrev pub Memory : Type 0
Memory = List (Key × (ℕ × Option ℕ))

-- `client` is the state of the server, where one is connected.
pub record Store (R : Type 0) : Type 0 where
  pub client : Option R
  pub memory : Memory

pub record StoreSettings : Type 0 where
  pub rate_limit_in_memory_fallback : Bool
  pub is_production : Bool

unfoldable pub allow_memory_fallback : StoreSettings → Bool
allow_memory_fallback c = c.rate_limit_in_memory_fallback && not c.is_production

abbrev pub is_expired : ℕ → ℕ × Option ℕ → Bool
is_expired now (v, none) = false
is_expired now (v, some expires_at) = leb expires_at now

abbrev drop_expired : ℕ → Key → Option (ℕ × Option ℕ) → Memory → Memory
drop_expired now k none m = m
drop_expired now k (some entry) m = if is_expired now entry then pop k m else m

-- `_delete_if_expired_locked`
unfoldable pub delete_if_expired : ℕ → Key → Memory → Memory
delete_if_expired now k m = drop_expired now k (lookup k m) m

abbrev pub value_of : Option (ℕ × Option ℕ) → Option ℕ
value_of none = none
value_of (some (v, _)) = some v

-- `_memory_store.get(key, ("0", None))`, counted up; a time of expiry that is there stays.
abbrev pub counted_up : ℕ → Option (ℕ × Option ℕ) → ℕ × Option ℕ
counted_up expiry none = (1, some expiry)
counted_up expiry (some (v, e)) = (v + 1, some (get_or e expiry))

abbrev pub time_left : ℕ → Option (ℕ × Option ℕ) → Option ℕ
time_left now none = none
time_left now (some (v, none)) = none
time_left now (some (v, some expires_at)) = some (max (expires_at - now) 1)

module _ {R : Type 0} (redis : Redis R) (settings : StoreSettings) where
  abbrev with_client : R → Store R → Store R
  with_client r s = record s { client = some r }

  abbrev with_memory : Memory → Store R → Store R
  with_memory m s = record s { memory = m }

  unfoldable pub is_available : Store R → Bool
  unfolding allow_memory_fallback
  is_available s = is_some s.client || allow_memory_fallback settings

  unfoldable pub get : ℕ → Key → Store R → Option ℕ × Store R
  unfolding allow_memory_fallback delete_if_expired
  get now k s = elim s.client [
    | some r ↦ (redis.get now k r, s)
    | none ↦
        if not (allow_memory_fallback settings)
        then (none, s)
        else let m = delete_if_expired now k s.memory in (value_of (lookup k m), with_memory m s)
  ]

  unfoldable pub set : ℕ → Key → ℕ → ℕ → Store R → Store R
  unfolding allow_memory_fallback put
  set now k value ttl_seconds s = elim s.client [
    | some r ↦ with_client (redis.set now k value (max ttl_seconds 1) r) s
    | none ↦
        if not (allow_memory_fallback settings)
        then s
        else with_memory (put k (value, some (now + max ttl_seconds 1)) s.memory) s
  ]

  abbrev pop_all : List Key → Memory → Memory
  pop_all [] m = m
  pop_all (k ∷ ks) m = pop_all ks (pop k m)

  -- `delete(*keys)`, which all callers give at least one key.
  unfoldable pub delete : List Key → Store R → Store R
  unfolding allow_memory_fallback pop
  delete ks s = elim s.client [
    | some r ↦ with_client (redis.delete ks r) s
    | none ↦ if not (allow_memory_fallback settings) then s else with_memory (pop_all ks s.memory) s
  ]

  abbrev incr_client : ℕ → Key → ℕ → ℕ × R → Store R → ℕ × Store R
  incr_client now k ttl (value, r) s =
      (value, with_client (if value == 1 then redis.expire now k ttl r else r) s)

  unfoldable pub increment : ℕ → Key → ℕ → Store R → ℕ × Store R
  unfolding allow_memory_fallback delete_if_expired put
  increment now k ttl_seconds s = elim s.client [
    | some r ↦ incr_client now k (max ttl_seconds 1) (redis.incr now k r) s
    | none ↦
        if not (allow_memory_fallback settings)
        then (1, s)
        else let m = delete_if_expired now k s.memory in
          let entry = counted_up (now + max ttl_seconds 1) (lookup k m) in
          (entry.0, with_memory (put k entry m) s)
  ]

  unfoldable pub ttl : ℕ → Key → Store R → Option ℕ × Store R
  unfolding allow_memory_fallback delete_if_expired
  ttl now k s = elim s.client [
    | some r ↦ (redis.ttl now k r, s)
    | none ↦
        if not (allow_memory_fallback settings)
        then (none, s)
        else let m = delete_if_expired now k s.memory in
          (time_left now (lookup k m), with_memory m s)
  ]
