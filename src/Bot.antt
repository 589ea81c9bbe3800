-- ===== src/Bot.antt =====
-- pwa/services/telegram.py: the calls of the Bot API, and what the bot of pwa/api/telegram.py keeps.
-- The API is an argument: its answer to a request, after the requests made before.
pub mod Screens
pub mod Support
pub mod Dialogue
mod Keeps
pub mod Discreet
mod Examples
use text.Mathlib.Text.{find?}
use Prim.Native.String
use vpn_infrastructure_showc.Base.{
  ℕ, String, Bool, false, ◌&&◌, ◌||◌, not, Option, none, some, List, [], ◌∷◌, ◌++◌, is_some,
  get_or_else, if◌then◌else◌,
}
use vpn_infrastructure_showc.PyText.{lower}
use vpn_infrastructure_showc.Dict.{Dict}
use vpn_infrastructure_showc.Exec.{Exec, Result, ok}
use vpn_infrastructure_showc.Plans.{Plan}
use vpn_infrastructure_showc.Accounts.{Server}
use vpn_infrastructure_showc.Accounts.Telegram.{Linked}

-- `s in text`
abbrev pub contains : String → String → Bool
contains text s = is_some (find? text s)

-- the answer of `_subscription_text`, without its words
pub data SubscriptionText : Type 0 where
  trial_until : ℕ → SubscriptionText
  no_subscription : SubscriptionText
  -- the plan, its name where it is not in the table, the end, and the devices of each location
  runs_until : Option Plan → Option String → Option ℕ → Dict ℕ → SubscriptionText

-- the answer of `_invite_text`: a code and its discount
pub data InviteText : Type 0 where
  needs_subscription : InviteText
  invitation : String → ℕ → InviteText

pub data HomeState : Type 0 where
  subscribed_to trying_to : Option ℕ → HomeState
  inactive : HomeState

-- the card: what decides its caption and its buttons
pub data Screen : Type 0 where
  status help not_linked : Screen
  subscription : SubscriptionText → Screen
  invite : InviteText → Screen
  home : String → HomeState → String → Screen
  stranger : String → String → Screen

-- who writes to the support: an account and its plan, or a name
pub data Sender : Type 0 where
  account : String → Option String → Sender
  outsider : String → Sender

-- the texts that the bot sends
pub data Words : Type 0 where
  card : Option Linked → Screen → Words
  to_operator : Sender → String → Words
  from_support : String → Words
  how_to_reply delivered undelivered : Words
  support_off too_many not_handed_on received : Words
  chat_id_is : ℕ → Words
  renew_on_site text_only looks_like_key dots : Words

-- the requests of the API
pub data ApiRequest : Type 0 where
  send_message : ℕ → Words → ApiRequest
  send_animation : ℕ → String → Words → ApiRequest
  edit_caption edit_text : ℕ → ℕ → Words → ApiRequest
  answer_query : String → ApiRequest
  delete_message : ℕ → ℕ → ApiRequest

pub record ApiResponse : Type 0 where
  pub ok : Bool
  pub description : String
  pub message_id : ℕ
  pub file_id : Option String

-- a customer's message in the operator's chat: `TelegramSupport`
pub record SupportRow : Type 0 where
  pub admin_message_id : ℕ
  pub user_chat_id : ℕ

-- The state of the bot: the accounts, the support's rows, the moments of each chat's messages to the
-- support, the animation that Telegram knows, and the requests made.
pub record BotState : Type 0 where
  pub server : Server
  pub support : List SupportRow
  pub seen : ℕ → List ℕ
  pub banner_id : Option String
  pub requests : List ApiRequest

-- the bot's settings; the operator's chat is a private one, whose number is positive
pub record BotSettings : Type 0 where
  pub enabled : Bool
  pub admin_chat : Option ℕ
  pub webhook_secret : String
  pub banner_url : String

abbrev pub api_off : ApiResponse
api_off = record { ok = false; description = "bot is off"; message_id = 0; file_id = none }

-- a step on the accounts
abbrev pub on_server : {A : Type 0} → Result A × Server → BotState → Result A × BotState
on_server (r, server) s = (r, record s { server = server })

abbrev pub lift : {A : Type 0} → Exec Server A → Exec BotState A
lift m s = on_server (m s.server) s

module _ (set : BotSettings) (api : List ApiRequest → ApiRequest → ApiResponse) where
  -- `call`
  unfoldable pub call : ApiRequest → BotState → ApiResponse × BotState
  call r s =
      if set.enabled
      then (api s.requests r, record s { requests = s.requests ++ r ∷ [] })
      else (api_off, s)

  abbrev pub message_id_of : ApiResponse → Option ℕ
  message_id_of r = if r.ok then some r.message_id else none

  -- `send`: the message's id, or none
  unfoldable pub send : ℕ → Words → BotState → Option ℕ × BotState
  send chat words s = let (r, t) = call (send_message chat words) s in (message_id_of r, t)

  unfoldable pub menu_sent : ℕ → Words → ApiResponse × BotState → Option ℕ × BotState
  menu_sent chat words (r, s) =
      let (q, t) = call (send_message chat words) s in
      if r.ok
      then (
        some r.message_id,
        record s { banner_id = if is_some r.file_id then r.file_id else s.banner_id },
      )
      else (message_id_of q, t)

  -- `send_menu`
  unfoldable pub send_menu : ℕ → Words → BotState → Option ℕ × BotState
  send_menu chat words s =
      menu_sent chat words
        (call (send_animation chat (get_or_else s.banner_id set.banner_url) words) s)

  -- a card that went out as text is edited as text
  unfoldable pub edit_again : ℕ → ℕ → Words → ApiResponse × BotState → ApiResponse × BotState
  edit_again chat key words (r, s) =
      let again = call (edit_text chat key words) s in
      if not r.ok && contains (lower r.description) "no caption" then again else (r, s)

  unfoldable pub edited : ℕ → Words → ApiResponse × BotState → BotState
  edited chat words (r, s) =
      let (id, t) = send_menu chat words s in
      if r.ok || contains r.description "not modified" then s else t

  -- `edit_menu`
  unfoldable pub edit_menu : ℕ → ℕ → Words → BotState → BotState
  edit_menu chat key words s =
      edited chat words (edit_again chat key words (call (edit_caption chat key words) s))

  -- `answer_callback`
  unfoldable pub answer_callback : String → BotState → BotState
  answer_callback key s = (call (answer_query key) s).1

  unfoldable pub dropped : ℕ → ApiResponse × BotState → BotState
  dropped chat (r, s) =
      let t = (call (delete_message chat r.message_id) s).1 in if r.ok then t else s

  -- `drop_keyboard`
  unfoldable pub drop_keyboard : ℕ → BotState → BotState
  drop_keyboard chat s = dropped chat (call (send_message chat dots) s)
