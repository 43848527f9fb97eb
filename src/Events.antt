-- ===== src/Events.antt =====
-- backend/internal/events: the consumer of upload events (consumer.go), the table of dead events (dlq.go)
-- and the retry of one (dlq_handler.go). The handler and NATS are parameters; subjects, payloads and
-- error texts are numbers.
pub mod Retries
pub mod Examples
use nimbus_storage_platform.Base.{
  ℕ, Bool, true, false, ◌&&◌, Option, none, some, List, [], ◌∷◌, ◌++◌, map, any, find?, leb, ◌==◌,
  if◌then◌else◌,
}

pub data EventStatus : Type 0 where
  dead retried : EventStatus

abbrev pub is_dead : EventStatus → Bool
is_dead dead = true
is_dead retried = false

pub record DeadEvent : Type 0 where
  pub id : ℕ
  pub subject : ℕ
  pub payload : ℕ
  pub error : ℕ
  pub deliveries : ℕ
  pub status : EventStatus
  pub retried_at : Option ℕ

unfoldable pub insert_dead_event : ℕ → ℕ → ℕ → ℕ → ℕ → List DeadEvent → List DeadEvent
insert_dead_event id subject payload error deliveries rows =
    record {
      id = id;
      subject = subject;
      payload = payload;
      error = error;
      deliveries = deliveries;
      status = dead;
      retried_at = none;
    }
    ∷ rows

abbrev pub is_event : ℕ → DeadEvent → Bool
is_event id e = e.id == id

abbrev pub is_dead_event : ℕ → DeadEvent → Bool
is_dead_event id e = is_event id e && is_dead e.status

-- `GetDeadEvent`.
unfoldable pub get_dead_event : ℕ → List DeadEvent → Option DeadEvent
get_dead_event id rows = find? (is_event id) rows

abbrev pub flip : ℕ → ℕ → DeadEvent → DeadEvent
flip id now e =
    if is_dead_event id e then record e { status = retried; retried_at = some now } else e

-- `MarkRetried`: whether a row was dead, and the rows.
unfoldable pub mark_retried : ℕ → ℕ → List DeadEvent → Bool × List DeadEvent
mark_retried id now rows = (any (is_dead_event id) rows, map (flip id now) rows)

abbrev pub unflip : ℕ → DeadEvent → DeadEvent
unflip id e = if is_event id e then record e { status = dead; retried_at = none } else e

unfoldable pub revert_retry : ℕ → List DeadEvent → List DeadEvent
revert_retry id rows = map (unflip id) rows

abbrev pub max_deliver : ℕ
max_deliver = 5

-- What the consumer answers NATS.
pub data Reply : Type 0 where
  ack nak term : Reply

-- A message; `event` is none where its payload cannot be decoded.
pub record Message : Type 0 where
  pub subject : ℕ
  pub data_ : ℕ
  pub event : Option ℕ

abbrev pub record_dead : Bool → ℕ → Message → ℕ → ℕ → List DeadEvent → List DeadEvent
record_dead true id m error deliveries rows =
    insert_dead_event id m.subject m.data_ error deliveries rows
record_dead false id m error deliveries rows = rows

-- A delivery with the handler's error, if any; `insert_ok` is whether the table can be reached.
abbrev pub reply_to : Bool → ℕ → Message → ℕ → Option ℕ → List DeadEvent → Reply × List DeadEvent
reply_to insert_ok id m num_delivered none rows = (ack, rows)
reply_to insert_ok id m num_delivered (some error) rows =
    if leb max_deliver num_delivered
    then (term, record_dead insert_ok id m error num_delivered rows)
    else (nak, rows)

-- The callback of `Subscribe`.
unfoldable pub consume :
    (ℕ → Option ℕ) → Bool → ℕ → Message → ℕ → List DeadEvent → Reply × List DeadEvent
consume handler insert_ok id m num_delivered rows = elim m.event [
  | none ↦ (term, rows)
  | some event ↦ reply_to insert_ok id m num_delivered (handler event) rows
]

-- Where a request for a retry (`Retry`) stands, between its calls.
pub data Phase : Type 0 where
  arrived loaded flipped unsent sent closed : Phase

pub record Retry : Type 0 where
  pub id : ℕ
  pub phase : Phase

abbrev pub at_phase : Phase → Retry → Retry
at_phase phase r = record r { phase = phase }

abbrev pub after_load : Option DeadEvent → Phase
after_load none = closed
after_load (some _) = loaded

-- The next call of a request; `fails` is whether it fails.
unfoldable pub advance : ℕ → Bool → Retry → Phase → List DeadEvent → Retry × List DeadEvent
advance now true r arrived rows = (at_phase closed r, rows)
advance now false r arrived rows = (at_phase (after_load (get_dead_event r.id rows)) r, rows)
advance now true r loaded rows = (at_phase closed r, rows)
advance now false r loaded rows =
    if (mark_retried r.id now rows).0
    then (at_phase flipped r, (mark_retried r.id now rows).1)
    else (at_phase closed r, rows)
advance now true r flipped rows = (at_phase unsent r, rows)
advance now false r flipped rows = (at_phase sent r, rows)
advance now true r unsent rows = (at_phase closed r, rows)
advance now false r unsent rows = (at_phase closed r, revert_retry r.id rows)
advance now fails r sent rows = (r, rows)
advance now fails r closed rows = (r, rows)

-- The requests and the table, one call of one request at a time.
pub data Retrying : List DeadEvent → List Retry → List DeadEvent → List Retry → Type 0 where
  done : (rows : List DeadEvent) (retries : List Retry) → Retrying rows retries rows retries
  arrive :
      {rows rows' : List DeadEvent} {retries retries' : List Retry} (id : ℕ)
      → Retrying rows (record { id = id; phase = arrived } ∷ retries) rows' retries'
      → Retrying rows retries rows' retries'
  call :
      {rows rows' : List DeadEvent} {retries' : List Retry} (now : ℕ) (fails : Bool)
      (before : List Retry) (r : Retry) (after : List Retry)
      → Retrying
          (advance now fails r r.phase rows).1
          (before ++ (advance now fails r r.phase rows).0 ∷ after)
          rows'
          retries'
      → Retrying rows (before ++ r ∷ after) rows' retries'
