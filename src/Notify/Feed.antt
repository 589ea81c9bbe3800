-- ===== src/Notify/Feed.antt =====
-- pwa/api/notifications.py: a customer's feed. Every query is of the account of the token.
mod Examples
use vpn_infrastructure_showc.Base.{
  ℕ, String, Bool, true, not, ◌&&◌, Option, none, some, List, any, count, is_none, select,
  sort_desc, take, update, ◌==◌, str_eq, if◌then◌else◌,
}
use vpn_infrastructure_showc.PyText.{strip}
use vpn_infrastructure_showc.Model.{User, Notification, Portal}
use vpn_infrastructure_showc.Exec.{Exec, ok, err, http, ◌>>=◌}
use vpn_infrastructure_showc.Notify.Reminders.{broadcast}
use vpn_infrastructure_showc.Payments.{one_or_none}

abbrev pub feed_size : ℕ
feed_size = 30

unfoldable pub found_or_404 : Option User → Exec Portal User
found_or_404 none db = (err (http 404 "User not found"), db)
found_or_404 (some user) db = (ok user, db)

-- `_user`
abbrev pub user_of_token : String → Exec Portal User
user_of_token sub db =
    (one_or_none (select (λ (u : User). str_eq u.username sub) db.users) >>= found_or_404) db

abbrev pub is_unread : ℕ → Notification → Bool
is_unread uid n = (n.user_id == uid) && is_none n.read_at

-- the newest messages, those of one moment by their keys, and how many are unread
unfoldable pub feed_of : User → Exec Portal (List Notification × ℕ)
feed_of user db = (
  ok (
    take feed_size (
        sort_desc (λ (n : Notification). n.created_at)
          (sort_desc (λ (n : Notification). n.id)
            (select (λ (n : Notification). n.user_id == user.id) db.notifications))),
    count (is_unread user.id) db.notifications,
  ),
  db,
)

-- `list_notifications`
unfoldable pub list_notifications : String → Exec Portal (List Notification × ℕ)
list_notifications sub db = (user_of_token sub >>= feed_of) db

-- `Notification.id.in_(ids)`, or no such condition
abbrev pub is_asked : Option (List ℕ) → Notification → Bool
is_asked none n = true
is_asked (some ids) n = any (λ i. i == n.id) ids

abbrev pub to_mark : Option (List ℕ) → ℕ → Notification → Bool
to_mark ids uid n = is_unread uid n && is_asked ids n

unfoldable pub mark_for : Option (List ℕ) → ℕ → User → Exec Portal ℕ
mark_for ids now user db = (
  ok (count (to_mark ids user.id) db.notifications),
  record db {
    notifications =
        update (to_mark ids user.id) (λ (n : Notification). record n { read_at = some now })
          db.notifications;
  },
)

-- `mark_read`: how many were marked
unfoldable pub mark_read : String → Option (List ℕ) → ℕ → Exec Portal ℕ
mark_read sub ids now db = (user_of_token sub >>= mark_for ids now) db

-- the endpoint `broadcast`
unfoldable pub broadcast_text : String → String → ℕ → Exec Portal ℕ
broadcast_text title body now db =
    let (sent, after) = broadcast now db in
    if str_eq (strip title) ""
    then (err (http 422 "Title and text are required"), db)
    else if str_eq (strip body) ""
    then (err (http 422 "Title and text are required"), db)
    else (ok sent, after)
