-- ===== src/Notify.antt =====
-- pwa/services/notify.py: one message in a customer's feed, and the endings that carry a letter.
-- A message is its kind, link and key; the wording of the texts is not modelled.
pub mod Reminders
pub mod Feed
use vpn_infrastructure_showc.Base.{
  ℕ, suc, String, Bool, true, false, ◌&&◌, Option, none, some, [], ◌∷◌, ◌++◌, ◌==◌, str_eq, any,
  holds, if◌then◌else◌,
}
use vpn_infrastructure_showc.Model.{
  User, DedupeKey, referral, sub1, sub3, trial1, ended, Portal, telegram, letter,
}
use vpn_infrastructure_showc.Plans.{get_by_name}

-- `LINKS.get(kind)`
unfoldable pub link_of : String → Option String
unfolding get_by_name
link_of kind = get_by_name kind (
    ("paid", "config")
    ∷ ("granted", "config")
    ∷ ("trial_started", "config")
    ∷ ("trial_ends_1d", "payment")
    ∷ ("trial_ended", "payment")
    ∷ ("sub_ends_3d", "payment")
    ∷ ("sub_ends_1d", "payment")
    ∷ ("sub_ended", "payment")
    ∷ ("referral_bonus", "invite")
    ∷ [])

-- two `dedupe_key` texts are the same
abbrev pub same_key : DedupeKey → DedupeKey → Bool
same_key (referral a) (referral b) = a == b
same_key (sub1 a) (sub1 b) = a == b
same_key (sub3 a) (sub3 b) = a == b
same_key (trial1 a) (trial1 b) = a == b
same_key (ended k a) (ended j b) = str_eq k j && (a == b)
same_key _ _ = false

-- whether the feed of a user holds a message with that key
unfoldable pub already_sent : ℕ → DedupeKey → Portal → Bool
already_sent uid key db =
    any (λ n. (n.user_id == uid) && holds (same_key key) n.dedupe_key) db.notifications

abbrev pub to_chat : Option ℕ → String → Portal → Portal
to_chat none kind db = db
to_chat (some chat) kind db =
    if chat == 0 then db else record db { outbox = db.outbox ++ telegram chat kind ∷ [] }

-- the row, and the message to the linked chat
unfoldable pub post : ℕ → User → String → Option DedupeKey → Portal → Portal
unfolding link_of
post now user kind dedupe db = to_chat user.telegram_id kind (record db {
  next_id = suc db.next_id;
  notifications =
      db.notifications
      ++ record {
        id = db.next_id;
        user_id = user.id;
        kind = kind;
        link = link_of kind;
        dedupe_key = dedupe;
        created_at = now;
        read_at = none;
      }
        ∷ [];
})

-- `notify`: false if the key was there already
unfoldable pub notify : ℕ → User → String → Option DedupeKey → Portal → Bool × Portal
notify now user kind dedupe db =
    if holds (λ key. already_sent user.id key db) dedupe
    then (false, db)
    else (true, post now user kind dedupe db)

-- `mailer.send_later`
unfoldable pub send_letter : User → String → Portal → Portal
send_letter user kind db = record db { outbox = db.outbox ++ letter user.email kind ∷ [] }

-- `ended`, called by the sweeps when the devices of a period have come off
unfoldable pub notify_ended : ℕ → User → String → ℕ → Portal → Portal
notify_ended now user kind until db =
    let (sent, db') = notify now user kind (some (ended kind until)) db in
    if sent && str_eq kind "sub_ended" then send_letter user kind db' else db'
