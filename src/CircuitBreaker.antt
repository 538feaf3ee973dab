-- ===== src/CircuitBreaker.antt =====
-- infrastructure/api_client/circuit_breaker.py. Retrying is the work of `tenacity`, and is left out:
-- a retry is one more call of the wrapper. Times are microseconds of the monotonic clock.
pub mod Traces
use crypto_mas.Prelude.{
  ℕ, ◌+◌, ◌-◌, Bool, true, false, ◌&&◌, List, [], ◌∷◌, String, ltb, leb, str_eq, if◌then◌else◌,
}

abbrev pub threshold : ℕ
threshold = 5

abbrev pub reset_timeout : ℕ
reset_timeout = 60_000_000

-- `_CircuitState`. Its flag `open` is `tripped` here.
pub record Circuit : Type 0 where
  pub failure_count : ℕ
  pub last_failure_time : ℕ
  pub tripped : Bool

abbrev pub new_circuit : Circuit
new_circuit = record { failure_count = 0; last_failure_time = 0; tripped = false }

pub record_success : Circuit → Circuit
record_success c = record c { failure_count = 0; tripped = false }

pub record_failure : ℕ → Circuit → Circuit
record_failure now c =
    let count = c.failure_count + 1 in
    record {
      failure_count = count;
      last_failure_time = now;
      tripped = if leb threshold count then true else c.tripped;
    }

pub is_open : ℕ → Circuit → Bool × Circuit
is_open now c =
    if c.tripped
    then (if ltb reset_timeout (now - c.last_failure_time)
        then (false, record c { tripped = false; failure_count = 0 })
        else (true, c))
    else (false, c)

-- How the wrapped function ends: `blocked` is its own CircuitOpenError, `failed` is any other Exception.
pub data Answer {ℓ} (A : Type ℓ) : Type ℓ where
  returned : A → Answer A
  blocked : Answer A
  failed : Answer A

-- A call of the wrapper that no other call interrupts. `answer` is what the function would give; it is
-- only asked when the circuit lets the call through.
pub record Attempt {ℓ} (A : Type ℓ) : Type ℓ where
  pub start : ℕ
  pub finish : ℕ
  pub answer : Answer A

module _ {ℓ} {A : Type ℓ} where
  -- The call of the function and what follows it.
  pub conclude : ℕ → Answer A → Circuit → Circuit
  unfolding record_success record_failure
  conclude now (returned a) c = record_success c
  conclude now blocked c = c
  conclude now failed c = record_failure now c

  pub guard : Attempt A → Circuit → Answer A × Circuit
  unfolding is_open conclude
  guard a c =
      let checked = is_open a.start c in
      if checked.0 then (blocked, checked.1) else (a.answer, conclude a.finish a.answer checked.1)

  -- The table `_circuits`; `get_circuit` adds a name it does not have.
  pub wrapper : String → Attempt A → List (String × Circuit) → Answer A × List (String × Circuit)
  unfolding guard
  wrapper name a [] = let out = guard a new_circuit in (out.0, (name, out.1) ∷ [])
  wrapper name a (entry ∷ rest) =
      let later = wrapper name a rest in
      if str_eq entry.0 name
      then (let out = guard a entry.1 in (out.0, (entry.0, out.1) ∷ rest))
      else (later.0, entry ∷ later.1)

  pub calls : List (Attempt A) → Circuit → Circuit
  unfolding guard
  calls [] c = c
  calls (a ∷ later) c = calls later (guard a c).1

-- What concurrent calls do to one circuit, one at a time.
pub data Event : Type 0 where
  checked : ℕ → Event
  succeeded : Event
  lost : ℕ → Event

pub step : Event → Circuit → Circuit
unfolding is_open record_success record_failure
step (checked now) c = (is_open now c).1
step succeeded c = record_success c
step (lost now) c = record_failure now c

-- The circuit after some events, the latest first.
pub after : List Event → Circuit
unfolding step
after [] = new_circuit
after (e ∷ past) = step e (after past)
