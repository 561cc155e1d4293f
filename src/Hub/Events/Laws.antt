-- ===== src/Hub/Events/Laws.antt =====
-- `TelegramEventService.create_event` and the loops over it.
use text.Mathlib.TextEquality.{eq_iff}
use text.Mathlib.TextPositions.{eq_refl}
use student_knowledge_hub.Prelude.{
  ℕ, ◌+◌, ◌≤◌, String, Bool, true, Option, none, some, List, [], ◌∷◌, ◌++◌, opt_eq, All, count,
  count-append, find, ◌≡◌, refl, arith, ◌≢◌, Option-cases, Bool-cases, inl, inr,
}
use student_knowledge_hub.Hub.Tables.{User, TelegramEventType, Payload, TelegramEvent, Hub}
use student_knowledge_hub.Hub.Events.{
  same_identity, create_event, create_events, new_event, default_channel,
}

-- The unique constraint of the table.
abbrev pub IsUnique : List TelegramEvent → Type 0
IsUnique events =
    (type : TelegramEventType) (entity_id : Option ℕ) (recipient_id : ℕ) (channel : String)
    → count (same_identity type entity_id recipient_id channel) events ≤ 1

module _ {A : Type 0} (p : A → Bool) where
  count_of_find-none : (xs : List A) → find p xs ≡ none → count p xs ≡ 0
  count_of_find-none [] h = refl
  count_of_find-none (x ∷ xs) h = ground (arith, count_of_find-none xs)

  count_of_find-some : (xs : List A) {a : A} → find p xs ≡ some a → 1 ≤ count p xs
  count_of_find-some [] h = cc
  count_of_find-some (x ∷ xs) {a} h = ground (arith, count_of_find-some xs {a = a})

  find_of_count : (xs : List A) → 1 ≤ count p xs → find p xs ≢ none
  find_of_count xs h e = absurd (omega (arith, count_of_find-none xs e))

  find-append_none : (xs ys : List A) → find p xs ≡ none → find p (xs ++ ys) ≡ find p ys
  find-append_none [] ys h = refl
  find-append_none (x ∷ xs) ys h = ground (arith, find-append_none xs ys)

  count_congr : (q : A → Bool) (xs : List A) → ((x : A) → q x ≡ p x) → count q xs ≡ count p xs
  count_congr q [] h = refl
  count_congr q (x ∷ xs) h = ground (arith, h x, count_congr q xs h)

opt_eq_iff : (a b : Option ℕ) → opt_eq a b ≡ true → a ≡ b
opt_eq_iff a b h = ground arith

opt_eq_refl : (a : Option ℕ) → opt_eq a a ≡ true
opt_eq_refl a = ground arith

-- A new event has the identity that was searched for.
same_identity-new_event :
    (type : TelegramEventType) (entity_type : Option String) (entity_id : Option ℕ) (r : User)
    (payload : Payload) (channel : String) (id : ℕ)
    → same_identity type entity_id r.id channel
        (new_event type entity_type entity_id r payload channel id)
      ≡ true
unfolding same_identity
same_identity-new_event type entity_type entity_id r payload channel id =
    ground (arith, opt_eq_refl entity_id, eq_refl channel)

-- Of any two searches that an event meets, each meets the same events.
same_identity_trans :
    (type type' : TelegramEventType) (entity_id entity_id' : Option ℕ) (r r' : ℕ)
    (channel channel' : String) (e : TelegramEvent)
    → same_identity type entity_id r channel e ≡ true
    → same_identity type' entity_id' r' channel' e ≡ true
    → (x : TelegramEvent)
    → same_identity type' entity_id' r' channel' x ≡ same_identity type entity_id r channel x
unfolding same_identity
same_identity_trans type type' entity_id entity_id' r r' channel channel' e h h' x = ground (
  arith,
  opt_eq_iff e.entity_id entity_id,
  opt_eq_iff e.entity_id entity_id',
  eq_iff e.delivery_channel channel,
  eq_iff e.delivery_channel channel',
)

module _ (type : TelegramEventType) (entity_type : Option String) (entity_id : Option ℕ) (r : User)
    (payload : Payload) (channel : String) where
  abbrev wanted : TelegramEvent → Bool
  wanted = same_identity type entity_id r.id channel

  abbrev created : ℕ → TelegramEvent
  created id = new_event type entity_type entity_id r payload channel id

  create_event-found :
      (h : Hub) {e : TelegramEvent}
      → find wanted h.events ≡ some e
      → create_event type entity_type entity_id r payload channel h ≡ (e, h)
  unfolding create_event
  create_event-found h found = rw (found, create_event)

  create_event-new :
      (h : Hub)
      → find wanted h.events ≡ none
      → create_event type entity_type entity_id r payload channel h ≡ (
        created h.next_id,
        record h { events = h.events ++ created h.next_id ∷ []; next_id = h.next_id + 1 },
      )
  unfolding create_event
  create_event-new h new = rw (new, create_event)

  created-wanted : (id : ℕ) → wanted (created id) ≡ true
  created-wanted id = same_identity-new_event type entity_type entity_id r payload channel id

  -- Whatever the table held, the identity asked for is in it afterwards.
  pub count-create_event :
      (h : Hub)
      → 1 ≤ count wanted (create_event type entity_type entity_id r payload channel h).1.events
  count-create_event h = elim (Option-cases (find wanted h.events)) [
    | inl new ↦ rw (create_event-new h new) (
        omega (
          arith,
          count-append wanted h.events (created h.next_id ∷ []),
          (let one : count wanted (created h.next_id ∷ []) ≡ 1 = rw (created-wanted h.next_id) in
              one),
        ))
    | inr (e, found) ↦ rw (create_event-found h found) (count_of_find-some wanted h.events found)
  ]

  module _ (p : TelegramEvent → Bool) where
    -- A new event is counted by the searches that have its identity, which had found nothing.
    count_new-le :
        (h : Hub)
        → find wanted h.events ≡ none
        → (p (created h.next_id) ≡ true → (x : TelegramEvent) → p x ≡ wanted x)
        → count p h.events ≤ 1
        → count p (h.events ++ created h.next_id ∷ []) ≤ 1
    count_new-le h new same u = elim (Bool-cases (p (created h.next_id))) [
      | inl yes_ ↦ rw (count-append p h.events (created h.next_id ∷ [])) (
          rw yes_ (
            rw (count_congr wanted p h.events (same yes_))
              (omega (arith, count_of_find-none wanted h.events new))))
      | inr no_ ↦ rw (count-append p h.events (created h.next_id ∷ [])) (rw no_ (omega arith))
    ]

  -- The creation of an event keeps the unique constraint: at most one event of each type, entity,
  -- recipient and channel.
  create_event-IsUnique :
      (h : Hub)
      → IsUnique h.events
      → IsUnique (create_event type entity_type entity_id r payload channel h).1.events
  create_event-IsUnique h u type' entity_id' r' channel' =
      elim (Option-cases (find wanted h.events)) [
        | inl new ↦ rw (create_event-new h new) (
            count_new-le (same_identity type' entity_id' r' channel') h new
              (same_identity_trans type type' entity_id entity_id' r.id r' channel channel'
                (created h.next_id) (created-wanted h.next_id))
              (u type' entity_id' r' channel'))
        | inr (e, found) ↦ rw (create_event-found h found) (u type' entity_id' r' channel')
      ]

  find-created :
      (h : Hub)
      → find wanted h.events ≡ none
      → find wanted (h.events ++ created h.next_id ∷ []) ≡ some (created h.next_id)
  find-created h new =
      rw (find-append_none wanted h.events (created h.next_id ∷ []) new, created-wanted h.next_id)

module _ (type : TelegramEventType) (entity_type : Option String) (entity_id : Option ℕ) (r : User)
    (payload payload' : Payload) (channel : String) where
  -- A second request for an event of the same identity, with any payload, returns the event that is
  -- there and changes nothing.
  pub create_event_idem :
      (h : Hub)
      → let (e, h') = create_event type entity_type entity_id r payload channel h in
        create_event type entity_type entity_id r payload' channel h' ≡ (e, h')
  create_event_idem h =
      elim (Option-cases (find (same_identity type entity_id r.id channel) h.events)) [
        | inl new ↦ rw (create_event-new type entity_type entity_id r payload channel h new) (
            create_event-found type entity_type entity_id r payload' channel _
              (find-created type entity_type entity_id r payload channel h new))
        | inr (e, found) ↦
            rw (create_event-found type entity_type entity_id r payload channel h found)
              (create_event-found type entity_type entity_id r payload' channel h found)
      ]

-- No event is lost.
count-create_event_mono :
    (type : TelegramEventType) (entity_type : Option String) (entity_id : Option ℕ) (r : User)
    (payload : Payload) (channel : String) (p : TelegramEvent → Bool) (h : Hub)
    → count p h.events
      ≤ count p (create_event type entity_type entity_id r payload channel h).1.events
count-create_event_mono type entity_type entity_id r payload channel p h =
    elim (Option-cases (find (same_identity type entity_id r.id channel) h.events)) [
      | inl new ↦
          rw (create_event-new type entity_type entity_id r payload channel h new)
            (rw (count-append p h.events) (omega arith))
      | inr (e, found) ↦
          rw (create_event-found type entity_type entity_id r payload channel h found) (omega arith)
    ]

module _ (type : TelegramEventType) (entity_type : Option String) (entity_id : Option ℕ)
    (payload : Payload) where
  pub create_events-IsUnique :
      (rs : List User) (h : Hub)
      → IsUnique h.events
      → IsUnique (create_events type entity_type entity_id payload rs h).events
  unfolding create_events
  create_events-IsUnique [] h u = u
  create_events-IsUnique (r ∷ rs) h u =
      create_events-IsUnique rs
        (create_event type entity_type entity_id r payload default_channel h).1
        (create_event-IsUnique type entity_type entity_id r payload default_channel h u)

  count-create_events_mono :
      (p : TelegramEvent → Bool) (rs : List User) (h : Hub)
      → count p h.events ≤ count p (create_events type entity_type entity_id payload rs h).events
  unfolding create_events
  count-create_events_mono p [] h = omega arith
  count-create_events_mono p (r ∷ rs) h = omega (
    arith,
    count-create_event_mono type entity_type entity_id r payload default_channel p h,
    count-create_events_mono p rs
        (create_event type entity_type entity_id r payload default_channel h).1,
  )

  each_has_event :
      (rs : List User) (h : Hub)
      → All
          (λ r.
            1
            ≤ count
                (same_identity type entity_id r.id default_channel)
                (create_events type entity_type entity_id payload rs h).events)
          rs
  unfolding create_events
  each_has_event [] h = tt
  each_has_event (r ∷ rs) h = (
    omega (
      arith,
      count-create_event type entity_type entity_id r payload default_channel h,
      count-create_events_mono (same_identity type entity_id r.id default_channel) rs
          (create_event type entity_type entity_id r payload default_channel h).1,
    ),
    each_has_event rs (create_event type entity_type entity_id r payload default_channel h).1,
  )

  abbrev HasOne : Hub → User → Type 0
  HasOne h r = count (same_identity type entity_id r.id default_channel) h.events ≡ 1

  -- From a table that meets its unique constraint, every recipient of an announcement has exactly
  -- one event of its identity afterwards, also one that had it before or is listed twice; and the
  -- constraint still holds.
  pub create_events_once :
      (rs : List User) (h : Hub)
      → IsUnique h.events
      → IsUnique (create_events type entity_type entity_id payload rs h).events
        × All (HasOne (create_events type entity_type entity_id payload rs h)) rs
  create_events_once rs h u = (unique, exact rs (each_has_event rs h))
    where
      unique : IsUnique (create_events type entity_type entity_id payload rs h).events
      unique = create_events-IsUnique rs h u

      exact :
          (us : List User)
          → All
              (λ r.
                1
                ≤ count
                    (same_identity type entity_id r.id default_channel)
                    (create_events type entity_type entity_id payload rs h).events)
              us
          → All (HasOne (create_events type entity_type entity_id payload rs h)) us
      exact [] a = tt
      exact (r ∷ us) a = (omega (arith, unique type entity_id r.id default_channel), exact us a.1)
