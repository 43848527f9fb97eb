-- ===== src/Events/Retries.antt =====
-- Concurrent retries of dead events (backend/internal/events/dlq_handler.go).
use nimbus_storage_platform.Base.{
  ℕ, ◌+◌, ◌≤◌, ◌≡◌, refl, sym, subst, ◌∙◌, ◌⊎◌, inl, inr, Bool, true, false, ◌&&◌, Option, none,
  some, List, [], ◌∷◌, ◌++◌, map, any, ◌==◌, arith, Bool-cases,
}
use nimbus_storage_platform.Events.{
  DeadEvent, is_dead_event, get_dead_event, flip, mark_retried, unflip, revert_retry, Phase,
  arrived, loaded, flipped, unsent, sent, closed, Retry, at_phase, after_load, advance, Retrying,
  done, arrive, call,
}

-- A request that has flipped the event and not undone it.
abbrev pub is_engaged : Phase → Bool
is_engaged arrived = false
is_engaged loaded = false
is_engaged flipped = true
is_engaged unsent = true
is_engaged sent = true
is_engaged closed = false

abbrev pub is_sent : Phase → Bool
is_sent arrived = false
is_sent loaded = false
is_sent flipped = false
is_sent unsent = false
is_sent sent = true
is_sent closed = false

abbrev pub one_if : Bool → ℕ
one_if true = 1
one_if false = 0

-- The requests for an event whose phase passes a test.
abbrev pub count : (Phase → Bool) → ℕ → List Retry → ℕ
count test id [] = 0
count test id (r ∷ rs) = one_if (r.id == id && test r.phase) + count test id rs

count-++ :
    (test : Phase → Bool) (id : ℕ) (before : List Retry) (r : Retry) (after : List Retry)
    → count test id (before ++ r ∷ after)
      ≡ one_if (r.id == id && test r.phase) + (count test id before + count test id after)
count-++ test id [] r after = omega arith
count-++ test id (b ∷ before) r after = let rest = count-++ test id before r after in omega arith

sent_engaged : (id : ℕ) (rs : List Retry) → count is_sent id rs ≤ count is_engaged id rs
sent_engaged id [] = omega arith
sent_engaged id (r ∷ rs) = ground (arith, sent_engaged id rs)

abbrev pub awaits : ℕ → List DeadEvent → Bool
awaits id rows = any (is_dead_event id) rows

awaits-flipped :
    (k id now : ℕ) (rows : List DeadEvent)
    → awaits k (map (flip id now) rows) ≡ true
    → (awaits k rows ≡ true) × ((k == id) ≡ false)
awaits-flipped k id now [] h = cc
awaits-flipped k id now (e ∷ es) h = ground (arith, awaits-flipped k id now es)

awaits-reverted :
    (k id : ℕ) (rows : List DeadEvent)
    → awaits k (map (unflip id) rows) ≡ true
    → (awaits k rows ≡ true) ⊎ (k ≡ id)
awaits-reverted k id [] h = cc
awaits-reverted k id (e ∷ es) h = ground (arith, awaits-reverted k id es)

-- No event that awaits a retry has a request engaged in one, and no event has two.
abbrev pub IsExclusive : List DeadEvent → List Retry → Type 0
IsExclusive rows retries =
    (k : ℕ)
    → (awaits k rows ≡ true → count is_engaged k retries ≡ 0) × (count is_engaged k retries ≤ 1)

-- The same of one request r among others, `others` of which are engaged.
abbrev Sole : List DeadEvent → Retry → (ℕ → ℕ) → Type 0
Sole rows r others =
    (k : ℕ)
    → (awaits k rows ≡ true → one_if (r.id == k && is_engaged r.phase) + others k ≡ 0)
      × (one_if (r.id == k && is_engaged r.phase) + others k ≤ 1)

flip-Sole :
    (now : ℕ) (r : Retry) (rows : List DeadEvent) (others : ℕ → ℕ)
    → any (is_dead_event r.id) rows ≡ true
    → r.phase ≡ loaded
    → Sole rows r others
    → Sole (map (flip r.id now) rows) (at_phase flipped r) others
flip-Sole now r rows others dead_row loading sole k = elim (Bool-cases (r.id == k)) [
  | inl same ↦
      let at : r.id ≡ k = ground arith in
      let awaiting : awaits k rows ≡ true = rw at at dead_row in
      let none_engaged = (sole k).0 awaiting in
      ((λ h. ground (arith, awaits-flipped k r.id now rows h)), ground arith)
  | inr other ↦ (
    (λ h.
        let before = (awaits-flipped k r.id now rows h).0 in
        let others_free = (sole k).0 before in ground arith),
    (let bound = (sole k).1 in ground arith),
  )
]

revert-Sole :
    (r : Retry) (rows : List DeadEvent) (others : ℕ → ℕ)
    → r.phase ≡ unsent
    → Sole rows r others
    → Sole (map (unflip r.id) rows) (at_phase closed r) others
revert-Sole r rows others undoing sole k =
    let bound = (sole k).1 in
    let free = (sole k).0 in
    (
      (λ h. elim (awaits-reverted k r.id rows h) [
        | inl before ↦ let free_before = free before in ground arith
        | inr same ↦ ground arith
      ]),
      ground arith,
    )

-- A phase that is not engaged takes the place of another.
leave-Sole :
    (r : Retry) (phase : Phase) (rows : List DeadEvent) (others : ℕ → ℕ)
    → is_engaged phase ≡ false
    → Sole rows r others
    → Sole rows (at_phase phase r) others
leave-Sole r phase rows others idle sole k =
    let bound = (sole k).1 in ((λ h. let free = (sole k).0 h in ground arith), ground arith)

-- One engaged phase takes the place of another.
stay-Sole :
    (r : Retry) (phase : Phase) (rows : List DeadEvent) (others : ℕ → ℕ)
    → is_engaged r.phase ≡ true
    → is_engaged phase ≡ true
    → Sole rows r others
    → Sole rows (at_phase phase r) others
stay-Sole r phase rows others before after sole k =
    let bound = (sole k).1 in ((λ h. let free = (sole k).0 h in ground arith), ground arith)

after_load_idle : (row : Option DeadEvent) → is_engaged (after_load row) ≡ false
after_load_idle none = refl
after_load_idle (some e) = refl

advance-Sole :
    (now : ℕ) (fails : Bool) (r : Retry) (phase : Phase) (rows : List DeadEvent) (others : ℕ → ℕ)
    → r.phase ≡ phase
    → Sole rows r others
    → let (r', rows') = advance now fails r phase rows in Sole rows' r' others
unfolding advance mark_retried revert_retry
advance-Sole now true r arrived rows others at sole = leave-Sole r closed rows others refl sole
advance-Sole now false r arrived rows others at sole =
    leave-Sole r (after_load (get_dead_event r.id rows)) rows others
      (after_load_idle (get_dead_event r.id rows)) sole
advance-Sole now true r loaded rows others at sole = leave-Sole r closed rows others refl sole
advance-Sole now false r loaded rows others at sole =
    elim (Bool-cases (any (is_dead_event r.id) rows)) [
      | inl dead_row ↦ rw dead_row (flip-Sole now r rows others dead_row at sole)
      | inr gone ↦ rw gone (leave-Sole r closed rows others refl sole)
    ]
advance-Sole now true r flipped rows others at sole =
    stay-Sole r unsent rows others (rw at refl) refl sole
advance-Sole now false r flipped rows others at sole =
    stay-Sole r sent rows others (rw at refl) refl sole
advance-Sole now true r unsent rows others at sole = leave-Sole r closed rows others refl sole
advance-Sole now false r unsent rows others at sole = revert-Sole r rows others at sole
advance-Sole now true r sent rows others at sole = sole
advance-Sole now false r sent rows others at sole = sole
advance-Sole now true r closed rows others at sole = sole
advance-Sole now false r closed rows others at sole = sole

call-IsExclusive :
    (now : ℕ) (fails : Bool) (before : List Retry) (r : Retry) (after : List Retry)
    (rows : List DeadEvent)
    → IsExclusive rows (before ++ r ∷ after)
    → let (r', rows') = advance now fails r r.phase rows in IsExclusive rows' (before ++ r' ∷ after)
call-IsExclusive now fails before r after rows exclusive k =
    let others : ℕ → ℕ = λ id. count is_engaged id before + count is_engaged id after in
    let (r', rows') = advance now fails r r.phase rows in
    let sole : Sole rows r others = λ id. (
      (λ h. sym (count-++ is_engaged id before r after) ∙ (exclusive id).0 h),
      subst (λ n. n ≤ 1) (count-++ is_engaged id before r after) (exclusive id).1,
    ) in
    let kept = advance-Sole now fails r r.phase rows others refl sole k in
    (
      (λ h. count-++ is_engaged k before r' after ∙ kept.0 h),
      subst (λ n. n ≤ 1) (sym (count-++ is_engaged k before r' after)) kept.1,
    )

Retrying-IsExclusive :
    {rows rows' : List DeadEvent} {retries retries' : List Retry}
    → Retrying rows retries rows' retries'
    → IsExclusive rows retries
    → IsExclusive rows' retries'
Retrying-IsExclusive (done rows retries) exclusive = exclusive
Retrying-IsExclusive (arrive {rows} {retries = retries} id rest) exclusive =
    Retrying-IsExclusive rest (λ k.
      let free = (exclusive k).0 in
      let bound = (exclusive k).1 in
      ((λ h. let none_engaged = free h in ground arith), ground arith))
Retrying-IsExclusive (call {rows} now fails before r after rest) exclusive =
    Retrying-IsExclusive rest (call-IsExclusive now fails before r after rows exclusive)

-- However the calls of concurrent retries interleave, and whichever of them fail, each dead event is
-- republished for at most one of the requests; and while an event still awaits a retry it has been
-- republished for none.
pub retries_publish_once :
    (rows rows' : List DeadEvent) (retries : List Retry) (id : ℕ)
    → Retrying rows [] rows' retries
    → (count is_sent id retries ≤ 1) × (awaits id rows' ≡ true → count is_sent id retries ≡ 0)
retries_publish_once rows rows' retries id steps =
    let exclusive = Retrying-IsExclusive steps (λ k. ((λ h. refl), omega arith)) in
    let sent_first = sent_engaged id retries in
    let bound = (exclusive id).1 in
    let free = (exclusive id).0 in (omega arith, λ h. let none_engaged = free h in omega arith)
