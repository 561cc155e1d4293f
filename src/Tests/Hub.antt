-- ===== src/Tests/Hub.antt =====
-- Telegram events for the administrators of the sample.
use student_knowledge_hub.Prelude.{List, some, [], ◌∷◌, arith, ◌≡◌, All, count}
use student_knowledge_hub.Hub.Tables.{user_registered, Payload, User}
use student_knowledge_hub.Hub.Events.{create_event, create_events, same_identity, default_channel}
use student_knowledge_hub.Hub.Events.Laws.{IsUnique, create_event_idem, create_events_once}
use student_knowledge_hub.Tests.Sample.{head_admin, author, hub}

abbrev news : Payload
news = Payload.of_user 2 "a@example.uz"

no_events-IsUnique : IsUnique []
no_events-IsUnique type entity_id recipient_id channel = omega arith

create_event_idem_example :
    let (e, h') =
      create_event user_registered (some "user") (some 2) head_admin news default_channel hub in
    create_event user_registered (some "user") (some 2) head_admin news default_channel h' ≡ (e, h')
create_event_idem_example =
    create_event_idem user_registered (some "user") (some 2) head_admin news news default_channel
      hub

abbrev listed : List User
listed = head_admin ∷ author ∷ head_admin ∷ []

-- The admin is listed twice.
create_events_once_example :
    IsUnique (create_events user_registered (some "user") (some 2) news listed hub).events
    × All
        (λ r.
          count
            (same_identity user_registered (some 2) r.id default_channel)
            (create_events user_registered (some "user") (some 2) news listed hub).events
          ≡ 1)
        listed
create_events_once_example =
    create_events_once user_registered (some "user") (some 2) news listed hub no_events-IsUnique
