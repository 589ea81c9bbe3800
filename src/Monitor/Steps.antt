-- ===== src/Monitor/Steps.antt =====
-- infrastructure/monitoring/sov_monitor.py: which problems are told, when again, and when they are
-- over.
pub mod Streaks
mod Examples
use Prim.Native.Char.{code}
use Prim.Native.String
use text.Mathlib.Text.{starts_with}
use vpn_infrastructure_showc.Base.{
  ℕ, ◌+◌, ◌-◌, ◌/◌, ◌%◌, String, Bool, true, false, not, ◌&&◌, ◌||◌, Option, none, some, List, [],
  ◌∷◌, ◌++◌, map, leb, ltb, ◌==◌, str_eq, any, is_some, is_none, select, if◌then◌else◌,
}
use vpn_infrastructure_showc.PyText.{decimal}
use vpn_infrastructure_showc.Dict.{Dict, lookup, insert}

-- what is kept of a problem; `sent` is 0 until it was told
pub record Seen : Type 0 where
  pub since : ℕ
  pub count : ℕ
  pub sent : ℕ
  pub text : String

pub record Notice : Type 0 where
  pub key : String
  pub text : String
  pub at : ℕ

-- the state file
pub record Memory : Type 0 where
  pub problems : Dict Seen
  pub boots : Dict ℕ
  pub notices : List Notice
  pub digest_day : Option String

-- `_dur`
unfoldable pub dur : ℕ → String
unfolding decimal
dur seconds =
    let m = seconds / 60 in
    if leb 60 m
    then String.◌++◌ (decimal (m / 60)) (String.◌++◌ " ч " (String.◌++◌ (decimal (m % 60)) " мин"))
    else String.◌++◌ (decimal m) " мин"

-- a problem that this run has: seen once more
unfoldable pub seen_again : ℕ → String → Option Seen → Seen
seen_again now text none = record { since = now; count = 1; sent = 0; text = text }
seen_again now text (some s) = record s { count = s.count + 1; text = text }

-- confirmed, and not told yet or told long enough ago
unfoldable pub is_due : ℕ → ℕ → ℕ → Seen → Bool
is_due confirm remind now s = leb confirm s.count && (s.sent == 0 || leb (s.sent + remind) now)

abbrev pub alert_text : ℕ → Seen → String
alert_text now s = String.◌++◌ "🔴 " (
    String.◌++◌ s.text (
      if s.sent == 0
      then ""
      else String.◌++◌ " (всё ещё, " (String.◌++◌ (dur (now - s.since)) ")")))

abbrev pub cleared_text : ℕ → Seen → String
cleared_text now s =
    String.◌++◌ "✅ "
      (String.◌++◌ s.text (String.◌++◌ " — прошло (" (String.◌++◌ (dur (now - s.since)) ")")))

unfoldable pub told : ℕ → ℕ → ℕ → Seen → Seen
told confirm remind now s = if is_due confirm remind now s then record s { sent = now } else s

abbrev pub message_of : ℕ → ℕ → ℕ → Seen → List String
message_of confirm remind now s = if is_due confirm remind now s then alert_text now s ∷ [] else []

-- the loop over this run's problems
unfoldable pub judge :
    ℕ → ℕ → ℕ → Dict Seen → Dict String → Dict Seen → List String → List String × Dict Seen
judge confirm remind now old [] new msgs = (msgs, new)
judge confirm remind now old ((key, text) ∷ rest) new msgs =
    let s = seen_again now text (lookup key old) in
    judge confirm remind now old rest (insert key (told confirm remind now s) new)
      (msgs ++ message_of confirm remind now s)

-- the loop over the problems that are gone
unfoldable pub clear : ℕ → Dict String → Dict Seen → List String
clear now problems [] = []
clear now problems ((key, s) ∷ rest) =
    let others = clear now problems rest in
    if is_none (lookup key problems) && not (s.sent == 0)
    then cleared_text now s ∷ others
    else others

-- `step`
unfoldable pub step : Memory → Dict String → ℕ → ℕ → ℕ → List String × Memory
step memory problems now confirm remind =
    let (msgs, new) = judge confirm remind now memory.problems problems [] [] in
    (msgs ++ clear now problems memory.problems, record memory { problems = new })

-- the seconds since the boot that a probe gives
abbrev pub differs : ℕ → ℕ → Bool
differs boot last = ltb 300 ((boot - last) + (last - boot))

abbrev pub has_rebooted : ℕ → Option ℕ → Bool
has_rebooted boot none = false
has_rebooted boot (some last) = differs boot last

-- the loop of `reboots` (its sign is written without the variation selector) over the hosts and their uptimes; a host without one says nothing
unfoldable pub reboots_of :
    ℕ → List (String × Option ℕ) → Dict ℕ → List String × Dict ℕ × List Notice
reboots_of now [] boots = ([], boots, [])
reboots_of now ((name, none) ∷ rest) boots = reboots_of now rest boots
reboots_of now ((name, some uptime) ∷ rest) boots =
    let boot = now - uptime in
    let (msgs, after, notices) = reboots_of now rest (insert name boot boots) in
    if has_rebooted boot (lookup name boots)
    then (
      String.◌++◌ "ℹ "
            (String.◌++◌ name (String.◌++◌ ": перезагрузился " (String.◌++◌ (dur uptime) " назад")))
          ∷ msgs,
      after,
      record {
        key = String.◌++◌ name ":reboot";
        text = String.◌++◌ name ": перезагрузился";
        at = boot;
      }
          ∷ notices,
    )
    else (msgs, after, notices)

-- `reboots`
unfoldable pub reboots : Memory → List (String × Option ℕ) → ℕ → List String × Memory
reboots memory uptimes now =
    let (msgs, boots, notices) = reboots_of now uptimes memory.boots in
    (msgs, record memory { boots = boots; notices = notices })

-- `problems.setdefault(key, text)`
abbrev pub set_default : String → String → Dict String → Dict String
set_default key text problems =
    if is_some (lookup key problems) then problems else insert key text problems

abbrev pub is_of : String → String → Bool
is_of name key =
    starts_with key (String.◌++◌ name ":") && not (str_eq key (String.◌++◌ name ":down"))

-- what was open for a host that does not answer stays open
unfoldable pub carry : String → Dict Seen → Dict String → Dict String
carry name [] problems = problems
carry name ((key, s) ∷ rest) problems =
    carry name rest (if is_of name key then set_default key s.text problems else problems)

unfoldable pub carry_all : List String → Dict Seen → Dict String → Dict String
carry_all [] old problems = problems
carry_all (name ∷ names) old problems = carry_all names old (carry name old problems)

-- a run, from the problems that the checks found and the hosts that did not answer: the messages,
-- and the state that is kept if they went out
unfoldable pub run :
    Memory → Dict String → List String → List (String × Option ℕ) → ℕ → ℕ → ℕ → List String × Memory
run memory found down uptimes now confirm remind =
    let (msgs, stepped) = step memory (carry_all down memory.problems found) now confirm remind in
    let (boot_msgs, after) = reboots stepped uptimes now in (msgs ++ boot_msgs, after)

-- the state file after the run: `send` is the answer of `send_telegram`
unfoldable pub save_if_sent : (List String → Bool) → Memory → List String × Memory → Memory
save_if_sent send memory ([], after) = after
save_if_sent send memory (m ∷ msgs, after) = if send (m ∷ msgs) then after else memory

-- the parts of a key between colons
cons_part : Bool → String → List String → List String
cons_part true c parts = "" ∷ parts
cons_part false c [] = c ∷ []
cons_part false c (part ∷ parts) = String.◌++◌ c part ∷ parts

unfoldable pub split_colons : String → List String
unfolding cons_part
split_colons String.[] = "" ∷ []
split_colons (String.◌∷◌ c s) = cons_part (code c == b':') (String.◌∷◌ c "") (split_colons s)

-- `(key.split(":") + [""])[1]`
abbrev pub second_part : List String → String
second_part [] = ""
second_part (x ∷ []) = ""
second_part (x ∷ y ∷ parts) = y

-- `level`
unfoldable pub level : String → String
level key =
    let kind = second_part (split_colons key) in
    if starts_with key "cert:"
      || any (str_eq kind) ("disk" ∷ "mem" ∷ "load" ∷ "units" ∷ "pool" ∷ "clock" ∷ [])
    then "warn"
    else "bad"

pub record Problem : Type 0 where
  pub key : String
  pub text : String
  pub level : String
  pub since : ℕ

abbrev pub problem_of : String × Seen → Problem
problem_of (key, s) = record { key = key; text = s.text; level = level key; since = s.since }

-- the problems of `build_report`: the confirmed ones
unfoldable pub reported : ℕ → Memory → List Problem
reported confirm memory = map problem_of (select (λ e. leb confirm (e.1).count) memory.problems)
