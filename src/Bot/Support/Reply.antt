-- ===== src/Bot/Support/Reply.antt =====
-- A customer's message to the support, and the way back of the operator's answer.
use vpn_infrastructure_showc.Base.{
  ℕ, ◌≡◌, Bool, false, Option, none, some, List, [], ◌∷◌, ◌++◌, ◌==◌, any,
}
use vpn_infrastructure_showc.Exec.{Result, ok}
use vpn_infrastructure_showc.Bot.{
  Words, received, ApiRequest, ApiResponse, SupportRow, BotState, BotSettings, send_message,
}

abbrev row : ℕ → ℕ → SupportRow
row key chat = record { admin_message_id = key; user_chat_id = chat }

abbrev is_row : ℕ → SupportRow → Bool
is_row key r = r.admin_message_id == key

-- the id that Telegram gives to the next message of a chat
abbrev pub next_message_id : (List ApiRequest → ApiRequest → ApiResponse) → ℕ → Words → BotState → ℕ
next_message_id api to w s = (api s.requests (send_message to w)).message_id

-- Telegram gives each message of a chat an id of its own: none of the rows has that of the next.
abbrev pub GivesNewId : (List ApiRequest → ApiRequest → ApiResponse) → ℕ → BotState → Type 0
GivesNewId api to s = (w : Words) → any (is_row (next_message_id api to w s)) s.support ≡ false

module _ (set : BotSettings) (api : List ApiRequest → ApiRequest → ApiResponse) (admin chat : ℕ)
    (s : BotState) where
  -- what an answer of `_to_support` says of the calls and the rows
  Recorded : Result Words × BotState → Type 0
  Recorded (ok received, t) =
      (w : Words) × (t.requests ≡ s.requests ++ send_message admin w ∷ [])
      × (t.support ≡ s.support ++ row (next_message_id api admin w s) chat ∷ [])
  Recorded r = Unit

  IsSent : Words → Option ℕ × BotState → Type 0
  IsSent w (none, t) = Unit
  IsSent w (some key, t) =
      (key ≡ next_message_id api admin w s)
      × (t.requests ≡ s.requests ++ send_message admin w ∷ [])
      × (t.support ≡ s.support)
