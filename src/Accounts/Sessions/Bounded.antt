-- ===== src/Accounts/Sessions/Bounded.antt =====
-- However accounts sign in and out, none has more than ten sessions.
use vpn_infrastructure_showc.Base.{
  ℕ, zero, suc, ◌+◌, ◌≤◌, String, ◌≡◌, refl, Bool, true, not, ◌&&◌, List, [], ◌∷◌, arith, leb, ltb,
  ◌==◌, ==_self, ==_iff, str_eq, count, take, drop, select, delete, update, sort_desc,
  count-sort_desc, count-append, All, Bool-cases, Option, none, some, inl, inr,
}
use vpn_infrastructure_showc.Model.{User, AppSession, Portal}
use vpn_infrastructure_showc.Exec.{then_do}
use vpn_infrastructure_showc.Payments.{one_or_none}
use vpn_infrastructure_showc.Accounts.Sessions.{
  max_sessions_per_user, is_own, last_used, drop_expired, stale_of, is_in, drop_stale, new_session,
  with_sessions, is_token, user_of, renew, open_session, with_digest, touch_session, use_found,
  use_session, close_session, close_sessions,
}

-- No account has more than ten sessions.
abbrev pub IsBounded : Portal → Type 0
IsBounded db = (uid : ℕ) → count (is_own uid) db.app_sessions ≤ max_sessions_per_user

count-delete_le : {A : Type 0} (p q : A → Bool) (xs : List A) → count p (delete q xs) ≤ count p xs
count-delete_le p q [] = omega arith
count-delete_le p q (x ∷ xs) = ground (arith, count-delete_le p q xs)

-- what a deletion leaves of the rows of one test
count-delete_own :
    {A : Type 0} (p q : A → Bool) (xs : List A)
    → count p (delete q xs) ≡ count (λ x. not (q x)) (select p xs)
count-delete_own p q [] = refl
count-delete_own p q (x ∷ xs) = ground (arith, count-delete_own p q xs)

count-take-drop :
    {A : Type 0} (p : A → Bool) (n : ℕ) (xs : List A)
    → count p xs ≡ count p (take n xs) + count p (drop n xs)
count-take-drop p zero xs = omega arith
count-take-drop p (suc n) [] = omega arith
count-take-drop p (suc n) (x ∷ xs) = ground (arith, count-take-drop p n xs)

count-take_le : {A : Type 0} (p : A → Bool) (n : ℕ) (xs : List A) → count p (take n xs) ≤ n
count-take_le p zero xs = omega arith
count-take_le p (suc n) [] = omega arith
count-take_le p (suc n) (x ∷ xs) = ground (arith, count-take_le p n xs)

count-update :
    {A : Type 0} (p q : A → Bool) (f : A → A) (xs : List A)
    → ((x : A) → p (f x) ≡ p x)
    → count p (update q f xs) ≡ count p xs
count-update p q f [] h = refl
count-update p q f (x ∷ xs) h = ground (arith, h x, count-update p q f xs h)

is_in-more :
    (x : AppSession) (stale rows : List AppSession)
    → All (λ r. is_in stale r ≡ true) rows
    → All (λ r. is_in (x ∷ stale) r ≡ true) rows
is_in-more x stale [] h = tt
is_in-more x stale (r ∷ rows) h = (ground (arith, h.0), is_in-more x stale rows h.1)

is_in_self : (stale : List AppSession) → All (λ r. is_in stale r ≡ true) stale
is_in_self [] = tt
is_in_self (x ∷ stale) = (ground (arith, ==_self x.id), is_in-more x stale stale (is_in_self stale))

count-none :
    (stale rows : List AppSession)
    → All (λ r. is_in stale r ≡ true) rows
    → count (λ r. not (is_in stale r)) rows ≡ 0
count-none stale [] h = refl
count-none stale (r ∷ rows) h = ground (arith, h.0, count-none stale rows h.1)

-- the stale sessions gone, at most nine are left
count-drop_stale : (uid : ℕ) (rows : List AppSession) → count (is_own uid) (drop_stale uid rows) ≤ 9
unfolding drop_stale stale_of
count-drop_stale uid rows =
    let sorted = sort_desc last_used (select (is_own uid) rows) in
    let kept : AppSession → Bool = λ r. not (is_in (drop 9 sorted) r) in
    omega (
      arith,
      count-delete_own (is_own uid) (is_in (drop 9 sorted)) rows,
      count-sort_desc last_used kept (select (is_own uid) rows),
      count-take-drop kept 9 sorted,
      count-take_le kept 9 sorted,
      count-none (drop 9 sorted) (drop 9 sorted) (is_in_self (drop 9 sorted)),
    )

drop_stale_le :
    (uid owner : ℕ) (rows : List AppSession)
    → count (is_own uid) (drop_stale owner rows) ≤ count (is_own uid) rows
unfolding drop_stale
drop_stale_le uid owner rows = count-delete_le (is_own uid) (is_in (stale_of owner rows)) rows

drop_expired_le :
    (uid owner now : ℕ) (rows : List AppSession)
    → count (is_own uid) (drop_expired owner now rows) ≤ count (is_own uid) rows
unfolding drop_expired
drop_expired_le uid owner now rows =
    count-delete_le (is_own uid) (λ r. is_own owner r && ltb r.expires_at now) rows

touch_session-IsBounded :
    (row : AppSession) (now : ℕ) (user : Option User) (db : Portal)
    → IsBounded db
    → IsBounded (touch_session row now user db).1
unfolding touch_session with_sessions
touch_session-IsBounded row now none db h uid = h uid
touch_session-IsBounded row now (some user) db h uid = elim (Bool-cases user.is_active) [
  | inl active ↦ rw active (
      rw (count-update (is_own uid) (λ r. r.id == row.id) (renew now) db.app_sessions (λ r. refl))
        (h uid))
  | inr closed ↦ rw closed (h uid)
]

use_found-IsBounded :
    (now : ℕ) (row : Option AppSession) (db : Portal)
    → IsBounded db
    → IsBounded (use_found now row db).1
unfolding use_found with_sessions
use_found-IsBounded now none db h uid = h uid
use_found-IsBounded now (some row) db h uid = elim (Bool-cases (leb row.expires_at now)) [
  | inl expired ↦
      rw expired
        (omega (arith, h uid, count-delete_le (is_own uid) (λ r. r.id == row.id) db.app_sessions))
  | inr live ↦ rw live (touch_session-IsBounded row now (user_of row.user_id db) db h uid)
]

rows-IsBounded :
    (now : ℕ) (rows : List AppSession) (db : Portal)
    → IsBounded db
    → IsBounded (then_do (use_found now) (one_or_none rows db)).1
rows-IsBounded now [] db h = use_found-IsBounded now none db h
rows-IsBounded now (row ∷ []) db h = use_found-IsBounded now (some row) db h
rows-IsBounded now (x ∷ y ∷ rows) db h = h

module _ (digest : String → String) where
  open_session-IsBounded :
      (user : User) (token : String) (now : ℕ) (db : Portal)
      → IsBounded db
      → IsBounded (open_session digest user token now db)
  unfolding open_session new_session
  open_session-IsBounded user token now db h uid =
      let live = drop_expired user.id now db.app_sessions in
      let row = new_session db.next_id user.id (digest token) now in
      rw (count-append (is_own uid) (drop_stale user.id live) (row ∷ []))
        (elim (Bool-cases (user.id == uid)) [
          | inl own ↦ ground (arith, own, count-drop_stale user.id live, (==_iff user.id uid).0 own)
          | inr other ↦ ground (
            arith,
            other,
            h uid,
            drop_stale_le uid user.id live,
            drop_expired_le uid user.id now db.app_sessions,
          )
        ])

  use_session-IsBounded :
      (token : String) (now : ℕ) (db : Portal)
      → IsBounded db
      → IsBounded (use_session digest token now db).1
  unfolding use_session
  use_session-IsBounded token now db h uid = elim (Bool-cases (is_token token)) [
    | inl one ↦ rw one (rows-IsBounded now (with_digest digest token db) db h uid)
    | inr none_there ↦ rw none_there (h uid)
  ]

  close_session-IsBounded :
      (token : String) (db : Portal) → IsBounded db → IsBounded (close_session digest token db)
  unfolding close_session with_sessions
  close_session-IsBounded token db h uid = elim (Bool-cases (is_token token)) [
    | inl one ↦ rw one (
        omega (
          arith,
          h uid,
          count-delete_le (is_own uid) (λ r. str_eq r.token_hash (digest token)) db.app_sessions,
        ))
    | inr none_there ↦ rw none_there (h uid)
  ]

  -- One operation of the service, on any account with any token at any time.
  pub data Signs : Portal → Portal → Type 0 where
    opens :
        (db : Portal) (user : User) (token : String) (now : ℕ)
        → Signs db (open_session digest user token now db)
    uses : (db : Portal) (token : String) (now : ℕ) → Signs db (use_session digest token now db).1
    closes : (db : Portal) (token : String) → Signs db (close_session digest token db)
    closes_all : (db : Portal) (user : User) → Signs db (close_sessions user db)

  pub data SignsReach (start : Portal) : Portal → Type 0 where
    here : SignsReach start start
    next : {db after : Portal} → SignsReach start db → Signs db after → SignsReach start after

  Signs-IsBounded : {db after : Portal} → Signs db after → IsBounded db → IsBounded after
  unfolding close_sessions with_sessions
  Signs-IsBounded (opens db user token now) h = open_session-IsBounded user token now db h
  Signs-IsBounded (uses db token now) h = use_session-IsBounded token now db h
  Signs-IsBounded (closes db token) h = close_session-IsBounded token db h
  Signs-IsBounded (closes_all db user) h =
      λ uid. omega (arith, h uid, count-delete_le (is_own uid) (is_own user.id) db.app_sessions)

  -- Starting from tables in which no account has more than ten sessions, no sequence of sign-ins,
  -- uses, sign-outs and password resets, of any accounts with any tokens at any times, gives an
  -- account more than ten.
  pub SignsReach-IsBounded :
      {start db : Portal} → IsBounded start → SignsReach start db → IsBounded db
  SignsReach-IsBounded h here = h
  SignsReach-IsBounded h (next r s) = Signs-IsBounded s (SignsReach-IsBounded h r)
