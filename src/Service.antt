-- ===== src/Service.antt =====
-- The handlers of the services, as actions on a database session: app/db/session.py and the
-- exception classes of app/core/exceptions.py.
-- `work` is what the session sees, flushed or not, `saved` what the last commit made durable, and
-- `outside` what no transaction covers (Redis, the file storage).
-- An exception that escapes a handler rolls the session back; what was committed before it, and
-- what happened outside, stays.
use student_knowledge_hub.Prelude.{ℕ, String, Bool, true, false, Option, none, some, if◌then◌else◌}

-- The subclasses of `AppException`, with their message; a rate limit carries `retry_after_seconds`.
pub data AppError : Type 0 where
  authentication_error permission_denied resource_not_found conflict_error : String → AppError
  validation_error policy_violation : String → AppError
  rate_limit_exceeded : String → ℕ → AppError
  -- Any other exception, which the handlers do not raise themselves.
  runtime_error : String → AppError

pub data Result (A : Type 0) : Type 0 where
  ok : A → Result A
  err : AppError → Result A

abbrev pub is_ok : {A : Type 0} → Result A → Bool
is_ok (ok _) = true
is_ok (err _) = false

pub record Session (S E : Type 0) : Type 0 where
  pub work : S
  pub saved : S
  pub outside : E

abbrev pub Handler : Type 0 → Type 0 → Type 0 → Type 0
Handler S E A = Session S E → Result A × Session S E

module _ {S E A : Type 0} where
  abbrev pub pure : A → Handler S E A
  pure a s = (ok a, s)

  abbrev pub raise : AppError → Handler S E A
  raise e s = (err e, s)

  abbrev pub gets : (S → A) → Handler S E A
  gets f s = (ok (f s.work), s)

  abbrev pub gets_outside : (E → A) → Handler S E A
  gets_outside f s = (ok (f s.outside), s)

  -- `if not x: raise e`, where `x` is what a query returned.
  abbrev pub or_raise : Option A → AppError → Handler S E A
  or_raise none e = raise e
  or_raise (some a) _ = pure a

module _ {S E : Type 0} where
  abbrev pub skip : Handler S E (Unit {0})
  skip s = (ok tt, s)

  abbrev pub raise_if : Bool → AppError → Handler S E (Unit {0})
  raise_if b e s = (if b then err e else ok tt, s)

  abbrev pub modify : (S → S) → Handler S E (Unit {0})
  modify f s = (ok tt, record s { work = f s.work })

  abbrev pub modify_outside : (E → E) → Handler S E (Unit {0})
  modify_outside f s = (ok tt, record s { outside = f s.outside })

  -- `await self.session.commit()`
  abbrev pub commit : Handler S E (Unit {0})
  commit s = (ok tt, record s { saved = s.work })

  -- `await self.session.rollback()`
  abbrev pub rollback : Handler S E (Unit {0})
  rollback s = (ok tt, record s { work = s.saved })

module _ {S E A B : Type 0} where
  abbrev pub continue : Result A → (A → Handler S E B) → Handler S E B
  continue (ok a) f s = f a s
  continue (err e) f s = (err e, s)

  infixl 5 ◌>>=◌ ◌>>◌
  abbrev pub ◌>>=◌ : Handler S E A → (A → Handler S E B) → Handler S E B
  ◌>>=◌ m f s = let (r, s') = m s in continue r f s'

  abbrev pub ◌>>◌ : Handler S E A → Handler S E B → Handler S E B
  m >> k = m >>= λ _. k

-- `get_db_session` around one handler: a new session over the database, and at its end what was
-- committed. An exception rolls back, and a session that ends without a commit is discarded too.
module _ {S E A : Type 0} where
  abbrev pub request : Handler S E A → S → E → Result A × S × E
  request m db out =
      let (r, s) = m (record { work = db; saved = db; outside = out }) in (r, s.saved, s.outside)
