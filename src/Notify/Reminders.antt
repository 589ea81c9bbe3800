-- ===== src/Notify/Reminders.antt =====
-- `remind_due`, the hourly reminders before an end, and `broadcast`, the operator's message.
pub mod Once
mod Examples
use vpn_infrastructure_showc.Base.{
  ℕ, suc, ◌+◌, String, Bool, true, false, ◌&&◌, not, Option, none, some, List, [], ◌∷◌, ◌++◌, map,
  length, leb, ltb, ◌==◌, holds, get_or_else, select, if◌then◌else◌,
}
use vpn_infrastructure_showc.Model.{days, User, DedupeKey, sub1, sub3, trial1, Portal, telegram}
use vpn_infrastructure_showc.Notify.{notify, send_letter}

-- what one round of a loop may send: whom, the kind, the key, and whether a letter goes with it
pub record Reminder : Type 0 where
  pub user : User
  pub kind : String
  pub key : DedupeKey
  pub with_letter : Bool

-- a paid period that ends within three days
unfoldable pub is_sub_ending : ℕ → User → Bool
is_sub_ending now u =
    u.is_subscribed && holds (λ t. ltb now t && leb t (now + days 3)) u.subscribed_until

-- a trial that ends within a day, unless a paid period runs
unfoldable pub is_trial_ending : ℕ → User → Bool
is_trial_ending now u =
    holds (λ t. ltb now t && leb t (now + days 1)) u.trial_until
    && not (holds (λ t. ltb now t) u.subscribed_until)

unfoldable pub sub_reminder : ℕ → User → Reminder
sub_reminder now u =
    let until = get_or_else u.subscribed_until 0 in
    if leb until (now + days 1)
    then record { user = u; kind = "sub_ends_1d"; key = sub1 until; with_letter = false }
    else record { user = u; kind = "sub_ends_3d"; key = sub3 until; with_letter = true }

unfoldable pub trial_reminder : User → Reminder
trial_reminder u = record {
  user = u;
  kind = "trial_ends_1d";
  key = trial1 (get_or_else u.trial_until 0);
  with_letter = true;
}

-- counted, and the letter, if the message is new
unfoldable pub count_sent : Reminder → ℕ → Bool × Portal → ℕ × Portal
count_sent r n (true, db) = (n + 1, if r.with_letter then send_letter r.user r.kind db else db)
count_sent r n (false, db) = (n, db)

unfoldable pub remind : ℕ → Reminder → ℕ × Portal → ℕ × Portal
remind now r (n, db) = count_sent r n (notify now r.user r.kind (some r.key) db)

unfoldable pub remind_all : ℕ → List Reminder → ℕ × Portal → ℕ × Portal
remind_all now [] acc = acc
remind_all now (r ∷ rs) acc = remind_all now rs (remind now r acc)

-- `remind_due`: the number of reminders, and the database
unfoldable pub remind_due : ℕ → Portal → ℕ × Portal
remind_due now db =
    let (n, db1) =
      remind_all now (map (sub_reminder now) (select (is_sub_ending now) db.users)) (0, db) in
    remind_all now (map trial_reminder (select (is_trial_ending now) db1.users)) (n, db1)

-- one row for each account
unfoldable pub post_all : ℕ → List User → Portal → Portal
post_all now [] db = db
post_all now (u ∷ us) db = post_all now us (record db {
  next_id = suc db.next_id;
  notifications =
      db.notifications
      ++ record {
        id = db.next_id;
        user_id = u.id;
        kind = "service";
        link = none;
        dedupe_key = none;
        created_at = now;
        read_at = none;
      }
        ∷ [];
})

abbrev chat_or_none : Option ℕ → Portal → Portal
chat_or_none none db = db
chat_or_none (some chat) db =
    if chat == 0 then db else record db { outbox = db.outbox ++ telegram chat "service" ∷ [] }

unfoldable pub chat_all : List User → Portal → Portal
chat_all [] db = db
chat_all (u ∷ us) db = chat_all us (chat_or_none u.telegram_id db)

-- `broadcast`: the number of accounts, and the database
unfoldable pub broadcast : ℕ → Portal → ℕ × Portal
broadcast now db =
    let users = select (λ (u : User). u.is_active) db.users in
    (length users, chat_all users (post_all now users db))
