-- ===== src/CircuitBreaker/Traces.antt =====
-- When a circuit opens, for how long, and what it takes to open it again.
use crypto_mas.Prelude.{
  ℕ, suc, ◌+◌, ◌≤◌, ◌<◌, ◌++◌, ◌∙◌, ◌≡◌, refl, true, false, List, [], ◌∷◌, arith, length, All, leb,
  ltb, ◌-◌, ap,
}
use crypto_mas.CircuitBreaker.{
  threshold, Answer, returned, new_circuit, Circuit, record_success, record_failure, is_open,
  blocked, failed, conclude, Attempt, guard, calls, Event, checked, succeeded, lost, step, after,
}

-- The failures since the last success, of events with the latest first.
abbrev pub failures_since_success : List Event → ℕ
failures_since_success [] = 0
failures_since_success (succeeded ∷ past) = 0
failures_since_success (checked now ∷ past) = failures_since_success past
failures_since_success (lost now ∷ past) = failures_since_success past + 1

pub record Sound (failures : ℕ) (c : Circuit) : Type 0 where
  pub flag : c.tripped ≡ leb threshold c.failure_count
  pub count : c.failure_count ≤ failures

step-Sound :
    (e : Event) (past : List Event) (c : Circuit)
    → Sound (failures_since_success past) c
    → Sound (failures_since_success (e ∷ past)) (step e c)
unfolding step is_open record_success record_failure
step-Sound (checked now) past c h = record {
  flag = ground (arith, h.flag);
  count = ground (arith, h.count);
}
step-Sound succeeded past c h = record { flag = refl; count = ground arith }
step-Sound (lost now) past c h = record {
  flag = ground (arith, h.flag);
  count = ground (arith, h.count);
}

-- However calls interleave, the circuit is open exactly when it has counted five failures, and it has
-- counted no more than there were since the last success.
pub after-Sound : (events : List Event) → Sound (failures_since_success events) (after events)
unfolding after
after-Sound [] = record { flag = refl; count = ground arith }
after-Sound (e ∷ past) = step-Sound e past (after past) (after-Sound past)

-- A circuit whose fifth failure was at a time.
abbrev opened_at : ℕ → Circuit
opened_at t = record { failure_count = 5; last_failure_time = t; tripped = true }

module _ {ℓ} {A : Type ℓ} where
  guard_failing :
      (a : Attempt A) (c : Circuit)
      → c.tripped ≡ false
      → a.answer ≡ failed
      → (guard a c).1 ≡ record_failure a.finish c
  unfolding guard is_open conclude
  guard_failing a c h k = rw (h, k) refl

  -- Of a circuit that is open exactly when five failures are counted, calls that fail in a row, up to the
  -- fifth failure, are all counted; so the circuit opens with the fifth, and not before.
  calls_failing :
      (attempts : List (Attempt A)) (c : Circuit)
      → c.tripped ≡ leb threshold c.failure_count
      → All (λ a. a.answer ≡ failed) attempts
      → c.failure_count + length attempts ≤ threshold
      → ((calls attempts c).failure_count ≡ c.failure_count + length attempts)
        × ((calls attempts c).tripped ≡ leb threshold (c.failure_count + length attempts))
  unfolding calls record_failure
  calls_failing [] c h k few = (omega arith, rw h (ground arith))
  calls_failing (a ∷ later) c h k few =
      let closed : c.tripped ≡ false = rw h (ground (arith, few)) in
      let flag : (record_failure a.finish c).tripped ≡ leb threshold (c.failure_count + 1) =
        rw closed (ground arith) in
      let rest = calls_failing later (record_failure a.finish c) flag k.1 (omega (arith, few)) in
      let same : c.failure_count + suc (length later) ≡ c.failure_count + 1 + length later =
        omega arith in
      rw (calls, guard_failing a c closed k.0, same) rest

  calls-append :
      (xs ys : List (Attempt A)) (c : Circuit) → calls (xs ++ ys) c ≡ calls ys (calls xs c)
  unfolding calls
  calls-append [] ys c = refl
  calls-append (x ∷ xs) ys c = calls-append xs ys (guard x c).1

  fifth_failure :
      (earlier : List (Attempt A)) (last : Attempt A)
      → length earlier ≡ 4
      → All (λ a. a.answer ≡ failed) earlier
      → last.answer ≡ failed
      → calls (earlier ++ last ∷ []) new_circuit ≡ opened_at last.finish
  unfolding calls record_failure
  fifth_failure earlier last four h k =
      let c4 = calls earlier new_circuit in
      let (count, flag) = calls_failing earlier new_circuit refl h (omega (arith, four)) in
      let closed : c4.tripped ≡ false = rw flag (rw four refl) in
      let counted : c4.failure_count ≡ 4 = omega (arith, count, four) in
      calls-append earlier (last ∷ []) new_circuit
      ∙ guard_failing last c4 closed k
      ∙ (rw (record_failure, counted) refl)

  blocked_call :
      (t : ℕ) (a : Attempt A)
      → a.start ≤ t + 60_000_000
      → guard a (opened_at t) ≡ (blocked, opened_at t)
  unfolding guard is_open
  blocked_call t a h =
      let soon : ltb 60_000_000 (a.start - t) ≡ false = ground (arith, h) in rw soon refl

  blocked_calls :
      (t : ℕ) (early : List (Attempt A))
      → All (λ a. a.start ≤ t + 60_000_000) early
      → (calls early (opened_at t) ≡ opened_at t)
        × All (λ a. (guard a (opened_at t)).0 ≡ blocked) early
  unfolding calls
  blocked_calls t [] h = (refl, tt)
  blocked_calls t (a ∷ later) h =
      let stays = blocked_call t a h.0 in
      let rest = blocked_calls t later h.1 in
      (ap (λ x. calls later x.1) stays ∙ rest.0, (ap (λ x. x.0) stays, rest.1))

  conclude_once :
      (now : ℕ) (x : Answer A) (t : ℕ)
      → let c =
          conclude now x (record { failure_count = 0; last_failure_time = t; tripped = false }) in
        (c.tripped ≡ false) × (c.failure_count ≤ 1)
  unfolding conclude record_success record_failure
  conclude_once now (returned a) t = (refl, ground arith)
  conclude_once now blocked t = (refl, ground arith)
  conclude_once now failed t = (refl, ground arith)

  late_call :
      (t : ℕ) (a : Attempt A)
      → t + 60_000_000 < a.start
      → let out = guard a (opened_at t) in
        (out.0 ≡ a.answer) × (out.1.tripped ≡ false) × (out.1.failure_count ≤ 1)
  unfolding guard is_open
  late_call t a h =
      let over : ltb 60_000_000 (a.start - t) ≡ true = ground (arith, h) in
      let (closed, few) = conclude_once a.finish a.answer t in rw over (refl, closed, few)

  -- Five calls that fail in a row open a new circuit. Then calls that start at most a minute after the fifth
  -- has failed are all blocked, however many, and leave the circuit as it is; after them, a call that
  -- starts later reaches the function, and leaves the circuit closed with at most one failure counted.
  pub calls_outage :
      (earlier : List (Attempt A)) (last : Attempt A) (early : List (Attempt A)) (late : Attempt A)
      → length earlier ≡ 4
      → All (λ a. a.answer ≡ failed) earlier
      → last.answer ≡ failed
      → All (λ a. a.start ≤ last.finish + 60_000_000) early
      → last.finish + 60_000_000 < late.start
      → let c = calls (earlier ++ last ∷ []) new_circuit in
        (c.tripped ≡ true)
        × (calls early c ≡ c)
        × All (λ a. (guard a c).0 ≡ blocked) early
        × ((guard late (calls early c)).0 ≡ late.answer)
        × ((guard late (calls early c)).1.tripped ≡ false)
        × ((guard late (calls early c)).1.failure_count ≤ 1)
  calls_outage earlier last early late four h k soon after_it =
      let opens = fifth_failure earlier last four h k in
      let (same, all) = blocked_calls last.finish early soon in
      let (answered, closed, few) = late_call last.finish late after_it in
      rw (opens, same) (refl, refl, all, answered, closed, few)
