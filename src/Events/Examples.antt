-- ===== src/Events/Examples.antt =====
-- Two requests for a retry of event 8 (backend/internal/events/dlq_handler.go): both have loaded it when the
-- second flips it, the first then finds it retried.
use nimbus_storage_platform.Base.{◌≤◌, ◌≡◌, refl, true, false, none, some, [], ◌∷◌}
use nimbus_storage_platform.Events.{
  DeadEvent, dead, retried, Message, term, nak, consume, insert_dead_event, get_dead_event,
  mark_retried, revert_retry, Phase, arrived, loaded, flipped, sent, closed, Retry, advance,
  Retrying, done, arrive, call,
}
use nimbus_storage_platform.Events.Retries.{is_sent, count, awaits, retries_publish_once}

abbrev message : Message
message = record { subject = 1; data_ = 2; event = some 3 }

abbrev dead_event : DeadEvent
dead_event = record {
  id = 8;
  subject = 1;
  payload = 2;
  error = 77;
  deliveries = 5;
  status = dead;
  retried_at = none;
}

-- The handler's error is final on the fifth delivery.
gives_up : consume (λ event. some 77) true 8 message 5 [] ≡ (term, dead_event ∷ [])
unfolding consume insert_dead_event
gives_up = refl

tries_again : consume (λ event. some 77) true 8 message 4 [] ≡ (nak, [])
unfolding consume
tries_again = refl

abbrev at : Phase → Retry
at phase = record { id = 8; phase = phase }

abbrev retried_event : DeadEvent
retried_event = record dead_event { status = retried; retried_at = some 50 }

steps : Retrying (dead_event ∷ []) [] (retried_event ∷ []) (at sent ∷ at closed ∷ [])
unfolding advance get_dead_event mark_retried revert_retry
steps = arrive 8 (
    arrive 8 (
      call 40 false [] (at arrived) (at arrived ∷ []) (
        call 41 false (at loaded ∷ []) (at arrived) [] (
          call 50 false [] (at loaded) (at loaded ∷ []) (
            call 51 false (at flipped ∷ []) (at loaded) [] (
              call 52 false [] (at flipped) (at closed ∷ [])
                (done (retried_event ∷ []) (at sent ∷ at closed ∷ []))))))))

retries_publish_once_example :
    (count is_sent 8 (at sent ∷ at closed ∷ []) ≤ 1)
    × (awaits 8 (retried_event ∷ []) ≡ true → count is_sent 8 (at sent ∷ at closed ∷ []) ≡ 0)
retries_publish_once_example =
    retries_publish_once (dead_event ∷ []) (retried_event ∷ []) (at sent ∷ at closed ∷ []) 8 steps
