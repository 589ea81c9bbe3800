-- ===== src/Bot/Dialogue.antt =====
-- pwa/api/telegram.py: what the bot does with an update.
use text.Mathlib.Text.{starts_with}
use Prim.Native.String.{slice, len}
use vpn_infrastructure_showc.Base.{
  ℕ, String, Bool, ◌||◌, not, Option, none, some, List, [], ◌∷◌, ◌==◌, str_eq, if◌then◌else◌,
}
use vpn_infrastructure_showc.PyText.{strip, after_first}
use vpn_infrastructure_showc.Dict.{Dict, lookup}
use vpn_infrastructure_showc.Exec.{Exec, Result, ok, err, http, ◌>>=◌}
use vpn_infrastructure_showc.Accounts.Telegram.{Linked, link}
use vpn_infrastructure_showc.Bot.{
  contains, Screen, card, chat_id_is, renew_on_site, text_only, looks_like_key, ApiRequest,
  ApiResponse, BotState, BotSettings, lift, send_menu, edit_menu, answer_callback, drop_keyboard,
}
use vpn_infrastructure_showc.Bot.Screens.{Moment, screen, home_screen}
use vpn_infrastructure_showc.Bot.Support.{say, to_support, admin_reply}

-- the texts of the old keyboard's buttons
pub record Keyboard : Type 0 where
  pub b_sub : String
  pub b_renew : String
  pub b_invite : String
  pub b_status : String
  pub b_help : String

abbrev pub keyboard : Keyboard
keyboard = record {
  b_sub = "📋 Подписка";
  b_renew = "💳 Продлить";
  b_invite = "🎁 Пригласить друга";
  b_status = "📡 Статус";
  b_help = "💬 Поддержка";
}

-- what is read of a message
pub record Message : Type 0 where
  pub is_private : Bool
  pub chat : ℕ
  pub text : Option String
  pub username : Option String
  pub first_name : Option String
  -- the message that this one replies to
  pub reply_to : Option ℕ

-- a button of the card
pub record Callback : Type 0 where
  pub query_id : String
  pub is_private : Bool
  pub chat : ℕ
  pub message_id : ℕ
  pub screen_data : String
  pub first_name : Option String

pub data Update : Type 0 where
  button : Callback → Update
  message : Message → Update
  other : Update

abbrev pub plain : Option String → String
plain none = ""
plain (some t) = t

-- `a or b`
abbrev pub or_text : String → String → String
or_text a b = if str_eq a "" then b else a

abbrev pub sender_name : Message → String
sender_name m = or_text (plain m.username) (or_text (plain m.first_name) "?")

-- the screens of commands and of the old keyboard
unfoldable pub screens : Dict String
screens =
    ("/help", "help")
    ∷ (keyboard.b_help, "help")
    ∷ ("/status", "status")
    ∷ (keyboard.b_status, "status")
    ∷ ("/me", "sub")
    ∷ (keyboard.b_sub, "sub")
    ∷ ("/invite", "invite")
    ∷ (keyboard.b_invite, "invite")
    ∷ ("/menu", "home")
    ∷ []

-- a text that holds a device's key
unfoldable pub has_key : String → Bool
has_key text = contains text "PrivateKey" || contains text "[Interface]"

module _ (set : BotSettings) (api : List ApiRequest → ApiRequest → ApiResponse) where
  abbrev pub show_card : ℕ → Option Linked → Screen → Exec BotState (Unit {0})
  show_card chat note scr s = (ok tt, (send_menu set api chat (card note scr) s).1)

  -- `_send_screen`
  unfoldable pub send_screen :
      Moment → ℕ → String → String → Option Linked → Exec BotState (Unit {0})
  send_screen at chat name first_name note =
      lift (screen at chat name first_name) >>= show_card chat note

  abbrev pub turn_card : ℕ → ℕ → Screen → Exec BotState (Unit {0})
  turn_card chat key scr s = (ok tt, edit_menu set api chat key (card none scr) s)

  -- `_on_callback`
  unfoldable pub on_callback : Moment → Callback → Exec BotState (Unit {0})
  on_callback at c s =
      let t = answer_callback set api c.query_id s in
      let turned =
        (lift (screen at c.chat (slice c.screen_data 2 (len c.screen_data)) (plain c.first_name))
            >>= turn_card c.chat c.message_id)
          t in
      if not c.is_private || not (starts_with c.screen_data "m:") then (ok tt, t) else turned

  module _ (digest : String → String) (at : Moment) where
    -- `/start`, with what follows it: a referrer's code, or a token of the account
    unfoldable pub start_with : Message → Option String → Exec BotState (Unit {0})
    start_with m none s =
        (lift (home_screen at.now m.chat (plain m.first_name) "") >>= show_card m.chat none) s
    start_with m (some part) s =
        let referred =
          (lift (home_screen at.now m.chat (plain m.first_name) (slice part 4 (len part)))
              >>= show_card m.chat none)
            s in
        let linked =
          (lift (link digest m.chat part at.now) >>= λ note.
          send_screen at m.chat "home" (plain m.first_name) (some note))
            s in
        if starts_with part "ref_" then referred else linked

    unfoldable pub on_start : Message → String → Exec BotState (Unit {0})
    on_start m text s = start_with m (after_first text) (drop_keyboard set api m.chat s)

    unfoldable pub ask_support : Message → String → Exec BotState (Unit {0})
    ask_support m text =
        to_support set api set.admin_chat at.clock m.chat (sender_name m) text
        >>= say set api m.chat

    -- a text that is no screen's name
    unfoldable pub free_text : Message → String → Exec BotState (Unit {0})
    free_text m text s =
        let home = send_screen at m.chat "home" (plain m.first_name) none s in
        let asked = ask_support m text s in
        if str_eq text keyboard.b_renew || str_eq text "/renew"
        then say set api m.chat renew_on_site s
        else if starts_with text "/"
        then home
        else if str_eq text ""
        then say set api m.chat text_only s
        else if has_key text
        then say set api m.chat looks_like_key s
        else asked

    unfoldable pub screen_or_text : Message → String → Option String → Exec BotState (Unit {0})
    screen_or_text m text (some name) = send_screen at m.chat name (plain m.first_name) none
    screen_or_text m text none = free_text m text

    unfoldable pub on_text : Message → String → Exec BotState (Unit {0})
    on_text m text s =
        let started = on_start m text s in
        let rest = screen_or_text m text (lookup text screens) s in
        if starts_with text "/start"
        then started
        else if str_eq text "/id"
        then say set api m.chat (chat_id_is m.chat) s
        else rest

    -- the operator answers with "reply" in their own chat
    unfoldable pub reply_or_text : Message → Option ℕ → Option ℕ → Exec BotState (Unit {0})
    reply_or_text m (some admin) (some key) s =
        let replied = admin_reply set api admin key (plain m.text) s in
        let text = on_text m (strip (plain m.text)) s in if m.chat == admin then replied else text
    reply_or_text m none key s = on_text m (strip (plain m.text)) s
    reply_or_text m (some admin) none s = on_text m (strip (plain m.text)) s

    -- `handle`
    unfoldable pub handle : Update → Exec BotState (Unit {0})
    handle (button c) s = on_callback at c s
    handle other s = (ok tt, s)
    handle (message m) s =
        let answered = reply_or_text m set.admin_chat m.reply_to s in
        if m.is_private then answered else (ok tt, s)

    -- the answer is sent whatever the update did
    abbrev pub always_ok : Result (Unit {0}) × BotState → Result (Unit {0}) × BotState
    always_ok (r, s) = (ok tt, s)

    abbrev pub handle_if_read : Option Update → Exec BotState (Unit {0})
    handle_if_read none s = (ok tt, s)
    handle_if_read (some u) s = always_ok (handle u s)

    -- `webhook`; an update that is no JSON is none
    unfoldable pub webhook : Option String → Option Update → Exec BotState (Unit {0})
    webhook header update s =
        let handled = handle_if_read update s in
        if str_eq set.webhook_secret "" || not (str_eq (plain header) set.webhook_secret)
        then (err (http 403 "forbidden"), s)
        else handled
