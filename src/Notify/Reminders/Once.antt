-- ===== src/Notify/Reminders/Once.antt =====
-- A reminder is sent once for each period.
use mathlib.Core.Path.{subst}
use vpn_infrastructure_showc.Base.{
  ℕ, ◌+◌, String, ◌≡◌, refl, sym, ap, ◌∙◌, Bool, true, false, ◌&&◌, ◌||◌, Option, none, some, List,
  [], ◌∷◌, ◌++◌, map, arith, ◌==◌, ==_self, eq_iff, any, holds, select, All, Bool-cases, inl, inr,
  if◌then◌else◌,
}
use vpn_infrastructure_showc.Model.{
  User, DedupeKey, referral, sub1, sub3, trial1, ended, Notification, Portal,
}
use vpn_infrastructure_showc.Notify.{same_key, already_sent, to_chat, post, notify, send_letter}
use vpn_infrastructure_showc.Notify.Reminders.{
  Reminder, is_sub_ending, is_trial_ending, sub_reminder, trial_reminder, count_sent, remind,
  remind_all, remind_due,
}

same_key_self : (k : DedupeKey) → same_key k k ≡ true
same_key_self (referral a) = ==_self a
same_key_self (sub1 a) = ==_self a
same_key_self (sub3 a) = ==_self a
same_key_self (trial1 a) = ==_self a
same_key_self (ended kind a) = ground (arith, ==_self a, (eq_iff kind kind).1 refl)

any-append :
    {A : Type 0} (p : A → Bool) (xs : List A) (y : A) → any p (xs ++ y ∷ []) ≡ (any p xs || p y)
any-append p [] y = ground arith
any-append p (x ∷ xs) y = ground (arith, any-append p xs y)

-- The message of a reminder is in the feed.
abbrev IsSent : Portal → Reminder → Type 0
IsSent db r = already_sent r.user.id r.key db ≡ true

notifications-to_chat :
    (o : Option ℕ) (kind : String) (db : Portal)
    → (to_chat o kind db).notifications ≡ db.notifications
notifications-to_chat none kind db = refl
notifications-to_chat (some chat) kind db = ground arith

sent-post :
    (uid : ℕ) (key : DedupeKey) (now : ℕ) (u : User) (kind : String) (k : DedupeKey) (db : Portal)
    → already_sent uid key (post now u kind (some k) db)
      ≡ (already_sent uid key db || ((u.id == uid) && same_key key k))
unfolding already_sent post
sent-post uid key now u kind k db =
    let p = λ (n : Notification). (n.user_id == uid) && holds (same_key key) n.dedupe_key in
    ap (any p) (notifications-to_chat u.telegram_id kind _) ∙ any-append p db.notifications _

keeps-post :
    (r q : Reminder) (now : ℕ) (db : Portal)
    → IsSent db r
    → IsSent (post now q.user q.kind (some q.key) db) r
keeps-post r q now db h = sent-post r.user.id r.key now q.user q.kind q.key db ∙ ground (arith, h)

-- a letter leaves the feed and the accounts as they are
keeps-letter :
    (r q : Reminder) (db : Portal)
    → IsSent db r
    → IsSent (if q.with_letter then send_letter q.user q.kind db else db) r
unfolding already_sent send_letter
keeps-letter r q db h = elim (Bool-cases q.with_letter) [
  | inl with_it ↦ rw with_it h
  | inr without ↦ rw without h
]

module _ (now : ℕ) (n : ℕ) (db : Portal) where
  remind-new :
      (q : Reminder)
      → already_sent q.user.id q.key db ≡ false
      → remind now q (n, db) ≡ (
        n + 1,
        let db' = post now q.user q.kind (some q.key) db in
            if q.with_letter then send_letter q.user q.kind db' else db',
      )
  unfolding remind notify count_sent
  remind-new q new = rw new refl

  remind-sent : (q : Reminder) → IsSent db q → remind now q (n, db) ≡ (n, db)
  unfolding remind notify count_sent
  remind-sent q old = rw old refl

  remind-keeps : (r q : Reminder) → IsSent db r → IsSent (remind now q (n, db)).1 r
  remind-keeps r q h = elim (Bool-cases (already_sent q.user.id q.key db)) [
    | inl old ↦ rw (remind-sent q old) h
    | inr new ↦ rw (remind-new q new) (keeps-letter r q _ (keeps-post r q now db h))
  ]

  remind-IsSent : (q : Reminder) → IsSent (remind now q (n, db)).1 q
  remind-IsSent q = elim (Bool-cases (already_sent q.user.id q.key db)) [
    | inl old ↦ rw (remind-sent q old) old
    | inr new ↦ rw (remind-new q new) (
        keeps-letter q q _ (
          sent-post q.user.id q.key now q.user q.kind q.key db
          ∙ ground (arith, ==_self q.user.id, same_key_self q.key)))
  ]

  users-remind : (q : Reminder) → (remind now q (n, db)).1.users ≡ db.users
  unfolding remind notify count_sent post send_letter
  users-remind q = ground arith

remind_all-keeps :
    (now : ℕ) (rs : List Reminder) (n : ℕ) (db : Portal) (r : Reminder)
    → IsSent db r
    → IsSent (remind_all now rs (n, db)).1 r
unfolding remind_all
remind_all-keeps now [] n db r h = h
remind_all-keeps now (q ∷ rs) n db r h = remind_all-keeps now rs _ _ r (remind-keeps now n db r q h)

remind_all-users :
    (now : ℕ) (rs : List Reminder) (n : ℕ) (db : Portal)
    → (remind_all now rs (n, db)).1.users ≡ db.users
unfolding remind_all
remind_all-users now [] n db = refl
remind_all-users now (q ∷ rs) n db = remind_all-users now rs _ _ ∙ users-remind now n db q

remind_all-All :
    (now : ℕ) (rs : List Reminder) (n : ℕ) (db : Portal)
    → All (IsSent (remind_all now rs (n, db)).1) rs
unfolding remind_all
remind_all-All now [] n db = tt
remind_all-All now (q ∷ rs) n db =
    (remind_all-keeps now rs _ _ q (remind-IsSent now n db q), remind_all-All now rs _ _)

keeps-All :
    (now : ℕ) (rs qs : List Reminder) (n : ℕ) (db : Portal)
    → All (IsSent db) qs
    → All (IsSent (remind_all now rs (n, db)).1) qs
keeps-All now rs [] n db h = tt
keeps-All now rs (q ∷ qs) n db h =
    (remind_all-keeps now rs n db q h.0, keeps-All now rs qs n db h.1)

remind_all-idle :
    (now : ℕ) (rs : List Reminder) (n : ℕ) (db : Portal)
    → All (IsSent db) rs
    → remind_all now rs (n, db) ≡ (n, db)
unfolding remind_all
remind_all-idle now [] n db h = refl
remind_all-idle now (q ∷ rs) n db h =
    rw (remind-sent now n db q h.0) (remind_all-idle now rs n db h.1)

-- Running the reminders a second time at the same moment sends nothing and changes nothing,
-- whatever was sent before and however the periods end.
pub remind_due-again :
    (now : ℕ) (db : Portal) → let db' = (remind_due now db).1 in remind_due now db' ≡ (0, db')
unfolding remind_due
remind_due-again now db =
    let subs = map (sub_reminder now) (select (is_sub_ending now) db.users) in
    let r1 = remind_all now subs (0, db) in
    let trials = map trial_reminder (select (is_trial_ending now) r1.1.users) in
    let r2 = remind_all now trials r1 in
    let users1 = remind_all-users now subs 0 db in
    let users2 = remind_all-users now trials r1.0 r1.1 in
    let first = keeps-All now trials subs r1.0 r1.1 (remind_all-All now subs 0 db) in
    let second = remind_all-All now trials r1.0 r1.1 in
    let same = sym (users2 ∙ users1) in
    again r2.1
      (subst (λ us. All (IsSent r2.1) (map (sub_reminder now) (select (is_sub_ending now) us))) same
        first)
      (subst (λ us. All (IsSent r2.1) (map trial_reminder (select (is_trial_ending now) us)))
        (sym users2) second)
  where
    again :
        (d : Portal)
        → All (IsSent d) (map (sub_reminder now) (select (is_sub_ending now) d.users))
        → All (IsSent d) (map trial_reminder (select (is_trial_ending now) d.users))
        → remind_due now d ≡ (0, d)
    again d first second = rw (remind_all-idle now _ 0 d first) (remind_all-idle now _ 0 d second)
