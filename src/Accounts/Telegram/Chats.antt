-- ===== src/Accounts/Telegram/Chats.antt =====
-- A chat moves from one account to another.
use mathlib.Core.Path.{subst}
use vpn_infrastructure_showc.Base.{
  suc, true, ◌++◌, sym, ◌∙◌, All-append, holds, ℕ, ◌≤◌, ◌<◌, ◌≡◌, refl, ap, Bool, not, ◌&&◌,
  Bool-cases, inl, inr, Option, none, some, [], ◌∷◌, arith, ◌==◌, ==_self, ==_iff, count, select,
  update, All, List,
}
use vpn_infrastructure_showc.Model.{User, Portal, save_user}
use vpn_infrastructure_showc.Accounts.Writes.{select-update_gone}
use vpn_infrastructure_showc.Accounts.Telegram.Counting.{
  count-fresh, count-update_same, count-keep, count-update_fewer, count-update_le, none-outside,
  one-inside,
}
use vpn_infrastructure_showc.Accounts.Telegram.{has_chat, free_chat, tie}

-- no key is that of two accounts or one still to come, and no chat is that of two
pub record IsTied (db : Portal) : Type 0 where
  pub ids : (key : ℕ) → count (λ (u : User). u.id == key) db.users ≤ 1
  pub chats : (chat : ℕ) → count (has_chat chat) db.users ≤ 1
  pub given : All (λ (u : User). u.id < db.next_id) db.users

update-given :
    (key : ℕ) (u : User) (users : List User)
    → All (λ (x : User). x.id < key) users
    → All (λ (x : User). x.id < key) (update (λ x. x.id == u.id) (λ _. u) users)
update-given key u [] h = tt
update-given key u (x ∷ users) h = elim (Bool-cases (x.id == u.id)) [
  | inl same ↦ rw same (omega (arith, h.0, (==_iff x.id u.id).0 same), update-given key u users h.1)
  | inr other ↦ rw other (h.0, update-given key u users h.1)
]

save-ids :
    (u : User) (db : Portal)
    → ((key : ℕ) → count (λ (x : User). x.id == key) db.users ≤ 1)
    → (key : ℕ) → count (λ (x : User). x.id == key) (save_user u db).users ≤ 1
unfolding save_user
save-ids u db h key =
    rw
      (count-update_same (λ x. x.id == key) (λ x. x.id == u.id) u db.users
        λ x same. ap (λ n. n == key) ((==_iff x.id u.id).0 same))
      (h key)

-- an account that has no chat any more
pub save-IsTied :
    (u : User) (db : Portal) → u.telegram_id ≡ none → IsTied db → IsTied (save_user u db)
unfolding save_user
save-IsTied u db no_chat h = record {
  ids = save-ids u db h.ids;
  given = update-given db.next_id u db.users h.given;
  chats = λ chat. omega (
    arith,
    h.chats chat,
    count-update_fewer (has_chat chat) (λ x. x.id == u.id) u db.users (rw no_chat refl),
  );
}

-- an account that keeps its chat
pub keep-IsTied :
    (r : User → Bool) (user u : User) (db : Portal)
    → select r db.users ≡ user ∷ []
    → u.id ≡ user.id
    → u.telegram_id ≡ user.telegram_id
    → IsTied db
    → IsTied (save_user u db)
unfolding save_user
keep-IsTied r user u db one same_id same_chat h = record {
  ids = save-ids u db h.ids;
  given = update-given db.next_id u db.users h.given;
  chats = λ chat.
      count-keep (has_chat chat) (λ x. x.id == u.id) u r db.users user one
        (ap (λ c. holds (λ n. n == chat) c) same_chat) (rw same_id (==_self user.id)) (h.ids u.id)
        (h.chats chat);
}

-- the answer of `_user_by_chat`
abbrev HeldBy : ℕ → Option User → Portal → Type 0
HeldBy chat none db = select (has_chat chat) db.users ≡ []
HeldBy chat (some other) db = select (has_chat chat) db.users ≡ other ∷ []

-- once the other account let go, no account but this one has the chat
pub record IsFreed (chat : ℕ) (user : User) (db : Portal) : Type 0 where
  pub tied : IsTied db
  pub free : count (λ x. has_chat chat x && not (x.id == user.id)) db.users ≡ 0

free_chat-IsFreed :
    (chat : ℕ) (user : User) (other : Option User) (db : Portal)
    → IsTied db
    → HeldBy chat other db
    → IsFreed chat user (free_chat user other db)
unfolding free_chat save_user
free_chat-IsFreed chat user none db h e = record {
  tied = h;
  free = none-outside (has_chat chat) (λ x. x.id == user.id) db.users e;
}
free_chat-IsFreed chat user (some other) db h e = elim (Bool-cases (other.id == user.id)) [
  | inl own ↦ rw own (record {
    tied = h;
    free = one-inside (has_chat chat) (λ x. x.id == user.id) db.users other e own;
  })
  | inr another ↦
      let gone : User = record other { telegram_id = none } in
      rw another (record {
        tied = save-IsTied gone db refl h;
        free =
            none-outside (has_chat chat) (λ x. x.id == user.id) (save_user gone db).users
              (select-update_gone (has_chat chat) (λ x. x.id == other.id) gone db.users other refl
                (==_self other.id) e);
      })
]

pub tie-IsTied :
    (chat : ℕ) (user : User) (other : Option User) (db : Portal)
    → user.telegram_id ≡ some chat
    → IsTied db
    → HeldBy chat other db
    → IsTied (tie user other db)
unfolding tie save_user
tie-IsTied chat user other db own h e =
    let f = free_chat-IsFreed chat user other db h e in
    let after = free_chat user other db in
    record {
      ids = save-ids user after f.tied.ids;
      given = update-given after.next_id user after.users f.tied.given;
      chats = λ c. elim (Bool-cases (chat == c)) [
        | inr different ↦ omega (
          arith,
          f.tied.chats c,
          count-update_fewer (has_chat c) (λ x. x.id == user.id) user after.users
              (rw own different),
        )
        | inl same ↦
            subst (λ n. count (has_chat n) (save_user user after).users ≤ 1)
              ((==_iff chat c).0 same)
              (omega (
                arith,
                f.tied.ids user.id,
                f.free,
                count-update_le (has_chat chat) (λ x. x.id == user.id) user after.users,
              ))
      ];
    }

given-more :
    (key : ℕ) (users : List User)
    → All (λ (r : User). r.id < key) users
    → All (λ (r : User). r.id < suc key) users
given-more key [] h = tt
given-more key (x ∷ users) h = (omega (arith, h.0), given-more key users h.1)

fresh-counted :
    (key : ℕ) (users : List User)
    → All (λ (r : User). r.id < key) users
    → count (λ (r : User). r.id == key) users ≡ 0
fresh-counted key [] h = refl
fresh-counted key (x ∷ users) h = ground (arith, h.0, fresh-counted key users h.1)

-- a row more, with the next key and a chat that no row has
pub append-IsTied :
    (db db' : Portal) (u : User)
    → db'.users ≡ db.users ++ u ∷ []
    → db'.next_id ≡ suc db.next_id
    → u.id ≡ db.next_id
    → ((chat : ℕ) → has_chat chat u ≡ true → count (has_chat chat) db.users ≡ 0)
    → IsTied db
    → IsTied db'
append-IsTied db db' u users next key new_chat h = record {
  ids = λ k. rw users (
      count-fresh (λ (r : User). r.id == k) db.users u (h.ids k)
        λ same.
          subst (λ n. count (λ (r : User). r.id == n) db.users ≡ 0)
            (sym key ∙ (==_iff u.id k).0 same) (fresh-counted db.next_id db.users h.given));
  chats = λ c. rw users (count-fresh (has_chat c) db.users u (h.chats c) (new_chat c));
  given =
      rw (users, next)
        (All-append (λ (r : User). r.id < suc db.next_id) db.users (u ∷ [])
          (given-more db.next_id db.users h.given) (omega (arith, key), tt));
}
