-- ===== src/RateLimit.antt =====
-- pwa/services/ratelimit.py: `Limiter` and the calls around it. The monotonic clock is read as a
-- number of microseconds, so `int(seconds)` is a division by `second`; a window is in seconds.
mod Window
mod Prune
mod Track
pub mod Admission
pub mod Waiting
mod Examples
use vpn_infrastructure_showc.Base.{
  ℕ, ◌+◌, ◌-◌, ◌*◌, ◌/◌, max, String, Bool, true, false, Option, none, some, List, [], ◌∷◌, ◌++◌,
  ltb, leb, if◌then◌else◌, length, get_or_else,
}
use vpn_infrastructure_showc.Dict.{Dict, lookup, insert, remove, keys}

abbrev pub second : ℕ
second = 1000000

-- `_SWEEP_EVERY`
abbrev pub sweep_every : ℕ
sweep_every = 1000

pub record Limiter : Type 0 where
  pub limit : ℕ
  pub window : ℕ
  pub events : Dict (List ℕ)
  pub since_sweep : ℕ

-- `Limiter(limit, window)`
unfoldable pub new : ℕ → ℕ → Limiter
new limit window = record { limit = limit; window = window; events = []; since_sweep = 0 }

-- `while q and q[0] <= now - self.window: q.popleft()`, with the window in microseconds
unfoldable pub pop_expired : ℕ → ℕ → List ℕ → List ℕ
pop_expired window now [] = []
pop_expired window now (t ∷ q) =
    let rest = pop_expired window now q in if leb (t + window) now then rest else t ∷ q

-- the end of `_prune`: an emptied queue is deleted
unfoldable pub keep : String → List ℕ → Limiter → Option (List ℕ) × Limiter
keep key [] l = (none, record l { events = remove key l.events })
keep key (t ∷ q) l = (some (t ∷ q), record l { events = insert key (t ∷ q) l.events })

unfoldable pub prune_found : String → ℕ → Option (List ℕ) → Limiter → Option (List ℕ) × Limiter
prune_found key now none l = (none, l)
prune_found key now (some q) l = keep key (pop_expired (l.window * second) now q) l

-- `_prune`
unfoldable pub prune : String → ℕ → Limiter → Option (List ℕ) × Limiter
prune key now l = prune_found key now (lookup key l.events) l

-- the wait that a full queue asks for
unfoldable pub wait_for : ℕ → Limiter → Option (List ℕ) → Option ℕ
wait_for now l none = none
wait_for now l (some []) = none
wait_for now l (some (t ∷ q)) =
    if ltb (length (t ∷ q)) l.limit
    then none
    else some (max 1 ((t + l.window * second - now) / second + 1))

-- `retry_after`: none if the key may act now, and the limiter with the key's queue pruned
unfoldable pub retry_after : String → ℕ → Limiter → Option ℕ × Limiter
retry_after key now l = let (q, l') = prune key now l in (wait_for now l' q, l')

-- `for k in list(self._events): self._prune(k, now)`
unfoldable pub sweep : List String → ℕ → Limiter → Limiter
sweep [] now l = l
sweep (k ∷ ks) now l = sweep ks now (prune k now l).1

unfoldable pub sweep_if_due : ℕ → Limiter → Limiter
sweep_if_due now l =
    if leb sweep_every l.since_sweep
    then sweep (keys l.events) now (record l { since_sweep = 0 })
    else l

-- `add`
unfoldable pub add : String → ℕ → Limiter → Limiter
add key now l = sweep_if_due now (record l {
  events = insert key (get_or_else (lookup key l.events) [] ++ now ∷ []) l.events;
  since_sweep = l.since_sweep + 1;
})

-- `check` and `take`: false is the 429 response. The two readings of the clock in one call are one
-- time here.
unfoldable pub take_if_free : Option ℕ → String → ℕ → Limiter → Bool × Limiter
take_if_free none key now l = (true, add key now l)
take_if_free (some wait) key now l = (false, l)

unfoldable pub take : String → ℕ → Limiter → Bool × Limiter
take key now l = let (wait, l') = retry_after key now l in take_if_free wait key now l'

-- A sequence of attempts, each a key and the time of it: the attempts that were let through, in
-- order, and the limiter afterwards.
unfoldable pub record_if : Bool → String × ℕ → List (String × ℕ) → List (String × ℕ)
record_if true a log = log ++ a ∷ []
record_if false a log = log

unfoldable pub attempts :
    List (String × ℕ) → List (String × ℕ) → Limiter → List (String × ℕ) × Limiter
attempts [] log l = (log, l)
attempts ((key, now) ∷ rest) log l =
    let (free, l') = take key now l in attempts rest (record_if free (key, now) log) l'
