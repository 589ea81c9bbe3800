-- ===== src/Monitor/Report.antt =====
-- pwa/api/monitor.py: a report opens the events of its problems and closes the others.
mod Keys
mod Counts
mod Folds
pub mod Exact
mod Ids
pub mod Sound
mod Examples
use Prim.Native.String
use vpn_infrastructure_showc.Base.{
  ℕ, suc, ◌+◌, ◌-◌, ◌*◌, min, String, Bool, not, ◌&&◌, Option, none, some, List, [], ◌∷◌, ◌++◌, leb,
  ltb, ◌==◌, str_eq, any, is_some, is_none, select, update, delete, if◌then◌else◌,
}
use vpn_infrastructure_showc.Dict.{Dict, lookup, insert}
use vpn_infrastructure_showc.Exec.{Exec, Result, ok, err, http}
use vpn_infrastructure_showc.PyText.{strip}
use vpn_infrastructure_showc.Monitor.{MonitorEvent, Board, silent_key}
use vpn_infrastructure_showc.Monitor.Steps.{Problem, Notice}

-- what of a report changes the portal's tables
pub record Report : Type 0 where
  pub problems : List Problem
  pub notices : List Notice

abbrev pub keep_days : ℕ
keep_days = 90

-- `removeprefix("Bearer ").strip()` of the header, or of no header
abbrev pub supplied : Option String → String
supplied none = ""
supplied (some header) =
    if str_eq (String.slice header 0 7) "Bearer "
    then strip (String.slice header 7 (String.len header))
    else strip header

-- `_authorised`, with MONITOR_TOKEN
unfoldable pub authorised : String → Option String → Exec Board (Unit {0})
authorised token header b =
    if str_eq token ""
    then (err (http 503 "Monitor is not configured"), b)
    else if str_eq (supplied header) token
    then (ok tt, b)
    else (err (http 401 "Bad token"), b)

-- `{e.key: e for e in rows}`
unfoldable pub by_key : {A : Type 0} → (A → String) → List A → Dict A → Dict A
by_key key [] d = d
by_key key (x ∷ xs) d = by_key key xs (insert (key x) x d)

abbrev pub is_open_elsewhere : MonitorEvent → Bool
is_open_elsewhere e = is_none e.ended_at && not (str_eq e.key silent_key)

-- a problem of the report: a new event, or new words for the one that is open
unfoldable pub note_problem : ℕ → Problem → Option MonitorEvent → Board → Board
note_problem now p none b = record b {
  next_id = suc b.next_id;
  events =
      b.events
      ++ record {
        id = b.next_id;
        key = p.key;
        level = p.level;
        text = p.text;
        started_at = min p.since now;
        ended_at = none;
      }
        ∷ [];
}
note_problem now p (some e) b = record b {
  events = update (λ r. r.id == e.id) (λ r. record r { text = p.text; level = p.level }) b.events;
}

unfoldable pub note_problems : ℕ → Dict MonitorEvent → Dict Problem → Board → Board
note_problems now open_by_key [] b = b
note_problems now open_by_key ((key, p) ∷ rest) b =
    note_problems now open_by_key rest (note_problem now p (lookup key open_by_key) b)

abbrev pub close : ℕ → MonitorEvent → MonitorEvent
close now r = record r { ended_at = some now }

-- the open events that the report does not carry end
unfoldable pub close_others : ℕ → Dict Problem → Dict MonitorEvent → Board → Board
close_others now current [] b = b
close_others now current ((key, e) ∷ rest) b = close_others now current rest (
    if is_some (lookup key current)
    then b
    else record b { events = update (λ r. r.id == e.id) (close now) b.events })

-- a notice, unless the one with that key was there a quarter of an hour before
unfoldable pub note_notice : ℕ → Notice → Board → Board
note_notice now n b =
    let at = min n.at now in
    if any (λ e. str_eq e.key n.key && leb (at - 15 * 60) e.started_at) b.events
    then b
    else record b {
      next_id = suc b.next_id;
      events =
          b.events
          ++ record {
            id = b.next_id;
            key = n.key;
            level = "info";
            text = n.text;
            started_at = at;
            ended_at = some at;
          }
            ∷ [];
    }

unfoldable pub note_notices : ℕ → List Notice → Board → Board
note_notices now [] b = b
note_notices now (n ∷ rest) b = note_notices now rest (note_notice now n b)

-- events that ended and began long ago go
unfoldable pub forget_old : ℕ → Board → Board
forget_old now b = record b {
  events = delete (λ e. is_some e.ended_at && ltb (e.started_at + keep_days * 86400) now) b.events;
}

-- the writes of `receive`
unfoldable pub take_report : ℕ → Report → Board → Board
take_report now report b =
    let open_by_key = by_key (λ (e : MonitorEvent). e.key) (select is_open_elsewhere b.events) [] in
    let current = by_key (λ (p : Problem). p.key) report.problems [] in
    let received : Board = record b { received_at = some now } in
    let noted = note_problems now open_by_key current received in
    let closed = close_others now current open_by_key noted in
    forget_old now (note_notices now report.notices closed)

abbrev pub accept : ℕ → Report → Result (Unit {0}) × Board → Result (Unit {0}) × Board
accept now report (ok a, b) = (ok a, take_report now report b)
accept now report (err e, b) = (err e, b)

-- `receive`
unfoldable pub receive : String → Option String → ℕ → Report → Exec Board (Unit {0})
receive token header now report b = accept now report (authorised token header b)
