-- ===== src/Bot/Discreet.antt =====
-- What an update keeps; a device's key is not handed on.
use text.Mathlib.Text.{starts_with}
use Prim.Native.String.{slice, len}
use vpn_infrastructure_showc.Base.{
  ℕ, ◌≡◌, refl, ◌∙◌, String, true, false, ◌||◌, not, Option, none, some, List, [], ◌∷◌, arith, ◌==◌,
  str_eq, count, count-append, select, Bool-cases, inl, inr,
}
use vpn_infrastructure_showc.PyText.{strip, after_first}
use vpn_infrastructure_showc.Dict.{lookup}
use vpn_infrastructure_showc.Exec.{ok, ◌>>=◌}
use vpn_infrastructure_showc.Accounts.Telegram.{Linked, link}
use vpn_infrastructure_showc.Bot.{
  contains, card, from_support, delivered, undelivered, how_to_reply, renew_on_site, text_only,
  looks_like_key, chat_id_is, Screen, ApiRequest, ApiResponse, SupportRow, BotState, BotSettings,
  lift,
}
use vpn_infrastructure_showc.Bot.Screens.{Moment, screen, home_screen}
use vpn_infrastructure_showc.Bot.Keeps.{
  is_handed, IsClosed, Keeps, lift_then-Keeps, row_then-Keeps, if-I, send-I, send_menu-I,
  edit_menu-I, answer_callback-I, drop_keyboard-I,
}
use vpn_infrastructure_showc.Bot.Dialogue.{
  keyboard, Message, Callback, Update, button, message, other, plain, screens, has_key, show_card,
  send_screen, turn_card, on_callback, start_with, on_start, ask_support, free_text, screen_or_text,
  on_text, reply_or_text, handle,
}
use vpn_infrastructure_showc.Bot.Support.{tell_operator, reply_to_row, admin_reply}

module _ (I : BotState → Type 0) (h : IsClosed I) (set : BotSettings)
    (api : List ApiRequest → ApiRequest → ApiResponse) where
  tell_operator-I :
      (admin : ℕ) (r : Option ℕ × BotState) → I r.1 → I (tell_operator set api admin r).1
  unfolding tell_operator
  tell_operator-I admin (none, s) i = send-I I h set api admin undelivered s refl i
  tell_operator-I admin (some id, s) i = send-I I h set api admin delivered s refl i

  reply_to_row-Keeps :
      (admin : ℕ) (text : String) (o : Option SupportRow)
      → Keeps I (reply_to_row set api admin text o)
  unfolding reply_to_row
  reply_to_row-Keeps admin text none s i = send-I I h set api admin how_to_reply s refl i
  reply_to_row-Keeps admin text (some row) s i =
      tell_operator-I admin _ (send-I I h set api row.user_chat_id (from_support text) s refl i)

  admin_reply-Keeps : (admin key : ℕ) (text : String) → Keeps I (admin_reply set api admin key text)
  unfolding admin_reply
  admin_reply-Keeps admin key text s i =
      row_then-Keeps I h (select (λ (r : SupportRow). r.admin_message_id == key) s.support)
        (reply_to_row set api admin text) (reply_to_row-Keeps admin text) s i

  show_card-Keeps :
      (chat : ℕ) (note : Option Linked) (scr : Screen) → Keeps I (show_card set api chat note scr)
  show_card-Keeps chat note scr s i = send_menu-I I h set api chat (card note scr) s refl i

  send_screen-Keeps :
      (at : Moment) (chat : ℕ) (name first_name : String) (note : Option Linked)
      → Keeps I (send_screen set api at chat name first_name note)
  unfolding send_screen
  send_screen-Keeps at chat name first_name note =
      lift_then-Keeps I h (screen at chat name first_name) (show_card set api chat note)
        (show_card-Keeps chat note)

  on_callback-Keeps : (at : Moment) (c : Callback) → Keeps I (on_callback set api at c)
  unfolding on_callback
  on_callback-Keeps at c s i =
      let j = answer_callback-I I h set api c.query_id s i in
      let ignores = not c.is_private || not (starts_with c.screen_data "m:") in
      elim (Bool-cases ignores) [
        | inl ignored ↦ rw ignored j
        | inr taken ↦ rw taken (
            lift_then-Keeps I h
              (screen at c.chat (slice c.screen_data 2 (len c.screen_data)) (plain c.first_name))
              (turn_card set api c.chat c.message_id)
              (λ scr u k. edit_menu-I I h set api c.chat c.message_id (card none scr) u refl k) _ j)
      ]

  module _ (digest : String → String) (at : Moment) (m : Message) where
    home-Keeps :
        (ref : String)
        → Keeps I (
            lift (home_screen at.now m.chat (plain m.first_name) ref)
            >>= show_card set api m.chat none)
    home-Keeps ref =
        lift_then-Keeps I h (home_screen at.now m.chat (plain m.first_name) ref)
          (show_card set api m.chat none) (show_card-Keeps m.chat none)

    start_with-Keeps : (part : Option String) → Keeps I (start_with set api digest at m part)
    unfolding start_with
    start_with-Keeps none s i = home-Keeps "" s i
    start_with-Keeps (some part) s i = elim (Bool-cases (starts_with part "ref_")) [
      | inl referred ↦ rw referred (home-Keeps (slice part 4 (len part)) s i)
      | inr token ↦ rw token (
          lift_then-Keeps I h (link digest m.chat part at.now)
            (λ note. send_screen set api at m.chat "home" (plain m.first_name) (some note))
            (λ note. send_screen-Keeps at m.chat "home" (plain m.first_name) (some note)) s i)
    ]

    module _ (text : String)
        (asked : has_key text ≡ false → Keeps I (ask_support set api digest at m text)) where
      free_text-Keeps : Keeps I (free_text set api digest at m text)
      unfolding free_text
      free_text-Keeps s i =
          elim (Bool-cases (str_eq text keyboard.b_renew || str_eq text "/renew")) [
            | inl renew ↦ rw renew (send-I I h set api m.chat renew_on_site s refl i)
            | inr a ↦ elim (Bool-cases (starts_with text "/")) [
              | inl command ↦
                  rw (a, command) (send_screen-Keeps at m.chat "home" (plain m.first_name) none s i)
              | inr b ↦ elim (Bool-cases (str_eq text "")) [
                | inl empty ↦ rw (a, b, empty) (send-I I h set api m.chat text_only s refl i)
                | inr c ↦ elim (Bool-cases (has_key text)) [
                  | inl key ↦ rw (a, b, c, key) (send-I I h set api m.chat looks_like_key s refl i)
                  | inr d ↦ rw (a, b, c, d) (asked d s i)
                ]
              ]
            ]
          ]

      screen_or_text-Keeps :
          (o : Option String) → Keeps I (screen_or_text set api digest at m text o)
      unfolding screen_or_text
      screen_or_text-Keeps (some name) = send_screen-Keeps at m.chat name (plain m.first_name) none
      screen_or_text-Keeps none = free_text-Keeps

      on_text-Keeps : Keeps I (on_text set api digest at m text)
      unfolding on_text on_start
      on_text-Keeps s i = elim (Bool-cases (starts_with text "/start")) [
        | inl started ↦
            rw started
              (start_with-Keeps (after_first text) _ (drop_keyboard-I I h set api m.chat s i))
        | inr a ↦ elim (Bool-cases (str_eq text "/id")) [
          | inl id ↦ rw (a, id) (send-I I h set api m.chat (chat_id_is m.chat) s refl i)
          | inr b ↦ rw (a, b) (screen_or_text-Keeps (lookup text screens) s i)
        ]
      ]

    module _
        (asked : has_key (strip (plain m.text)) ≡ false
          → Keeps I (ask_support set api digest at m (strip (plain m.text)))) where
      reply_or_text-Keeps :
          (admin key : Option ℕ) → Keeps I (reply_or_text set api digest at m admin key)
      unfolding reply_or_text
      reply_or_text-Keeps none key s i = on_text-Keeps _ asked s i
      reply_or_text-Keeps (some admin) none s i = on_text-Keeps _ asked s i
      reply_or_text-Keeps (some admin) (some key) s i =
          if-I I h (m.chat == admin) (admin_reply set api admin key (plain m.text) s)
            (on_text set api digest at m (strip (plain m.text)) s)
            (λ own. admin_reply-Keeps admin key (plain m.text) s i)
            (λ customer. on_text-Keeps _ asked s i)

      pub message-Keeps : Keeps I (handle set api digest at (message m))
      unfolding handle
      message-Keeps s i =
          if-I I h m.is_private (reply_or_text set api digest at m set.admin_chat m.reply_to s)
            (ok tt, s) (λ own. reply_or_text-Keeps set.admin_chat m.reply_to s i) (λ group. i)

  pub handle-Keeps :
      (digest : String → String) (at : Moment)
      → ((m : Message) (text : String) → Keeps I (ask_support set api digest at m text))
      → (u : Update) → Keeps I (handle set api digest at u)
  unfolding handle
  handle-Keeps digest at asked (button c) s i = on_callback-Keeps at c s i
  handle-Keeps digest at asked (message m) s i = message-Keeps digest at m (λ _. asked m _) s i
  handle-Keeps digest at asked other s i = i

-- how many messages were handed to the operator
abbrev pub handed : BotState → ℕ
handed s = count is_handed s.requests

handed-IsClosed : (n : ℕ) → IsClosed (λ s. handed s ≡ n)
handed-IsClosed n = record {
  requests = λ s r kept e. count-append is_handed s.requests (r ∷ []) ∙ ground (arith, kept, e);
  accounts = λ s v e. e;
  banner = λ s b e. e;
}

-- A text that has a device's key or the head of a connection file in it is not handed to the
-- operator, whoever sends it, whatever it begins with and whatever the Bot API answers.
pub handle-discreet :
    (set : BotSettings) (api : List ApiRequest → ApiRequest → ApiResponse)
    (digest : String → String) (at : Moment) (m : Message) (s : BotState)
    → contains (strip (plain m.text)) "PrivateKey" || contains (strip (plain m.text)) "[Interface]"
      ≡ true
    → handed (handle set api digest at (message m) s).1 ≡ handed s
unfolding has_key
handle-discreet set api digest at m s key =
    message-Keeps _ (handed-IsClosed (handed s)) set api digest at m
      (λ keyless. ground (arith, key, keyless)) s refl
