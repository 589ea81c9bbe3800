-- ===== src/Accounts/Telegram/Examples.antt =====
-- Tests and witnesses for the ties of chats; the digest is the identity.
use vpn_infrastructure_showc.Base.{String, ◌≡◌, refl, true, none, some, [], ◌∷◌, arith, map}
use vpn_infrastructure_showc.PyText.{strip, lower}
use vpn_infrastructure_showc.Model.{save_user}
use vpn_infrastructure_showc.Exec.{ok}
use vpn_infrastructure_showc.Sample.{customer, portal}
use vpn_infrastructure_showc.Accounts.{Visit, Server, limiter}
use vpn_infrastructure_showc.Accounts.SignIn.{create_token}
use vpn_infrastructure_showc.Accounts.Register.{all_name_chars}
use vpn_infrastructure_showc.Accounts.Telegram.{
  me_or_404, free_chat, tie, link, link_found, link_until, finish_link, tg_link, offer_link,
  link_is_old, register_as, tg_create, tg_unlink, tg_register, TgRegister,
}
use vpn_infrastructure_showc.Accounts.Telegram.Chats.{IsTied}
use vpn_infrastructure_showc.Accounts.Telegram.Tied.{
  stay, move, offers, links, unlinks, registers, TiesReach-IsTied,
}

abbrev id : String → String
id s = s

abbrev visit : Visit
visit = record { ip = "192.0.2.9"; now = 100; clock = 1; drawn = "tok" }

-- alice, and bob with the chat 55
abbrev server : Server
server = record {
  db = record (portal []) {
    users =
        customer 1 2000 ∷ record (customer 2 0) { username = "bob"; telegram_id = some 55 } ∷ [];
  };
  limits = limiter;
}

abbrev offered : Server
offered = (tg_link id true "alice" visit server).1

abbrev linked : Server
linked = (link id 55 "tok" 200 offered).1

-- the chat moves to alice
chat_moves : map (λ u. u.telegram_id) linked.db.users ≡ some 55 ∷ none ∷ []
unfolding tg_link offer_link me_or_404 link link_found link_until finish_link tie free_chat
    save_user
chat_moves = refl

once : (link id 77 "tok" 200 linked).0 ≡ ok link_is_old
unfolding tg_link offer_link me_or_404 link link_found link_until finish_link tie free_chat
    save_user
once = refl

-- A name that reads as the operator's is accepted from Telegram.
operator_name :
    (register_as id 120 visit (record { username = "Support"; ref = none }) (some 77) server).0
    ≡ ok (record { sub = "Support"; role = "client"; exp = 86500 })
unfolding register_as tg_create all_name_chars strip lower create_token
operator_name = refl

-- and an account begins in the chat that another one left
abbrev moved : Server
moved = (tg_unlink "alice" linked).1

abbrev newcomer : TgRegister
newcomer = record { username = "dave"; ref = none }

TiesReach-IsTied_example : IsTied (tg_register id 120 visit true newcomer (some 55) moved).1.db
TiesReach-IsTied_example =
    TiesReach-IsTied id {start = server}
      (record {
        ids = λ key. ground arith;
        chats = λ chat. ground arith;
        given = (omega arith, (omega arith, tt));
      })
      (move
        (move (move (move stay (offers server true "alice" visit)) (links offered 55 "tok" 200))
          (unlinks linked "alice"))
        (registers moved id 120 visit true newcomer (some 55)))
