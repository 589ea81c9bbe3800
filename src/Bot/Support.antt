-- ===== src/Bot/Support.antt =====
-- pwa/api/telegram.py: a customer's message goes to the operator's chat, and the answer back.
pub mod Reply
use vpn_infrastructure_showc.Base.{
  ℕ, ◌+◌, ◌*◌, String, Bool, true, false, Option, none, some, List, [], ◌∷◌, ◌++◌, length, ltb, leb,
  ◌==◌, is_some, select, if◌then◌else◌,
}
use vpn_infrastructure_showc.PyText.{first_chars}
use vpn_infrastructure_showc.Model.{User}
use vpn_infrastructure_showc.Exec.{Exec, Result, ok, ◌>>=◌}
use vpn_infrastructure_showc.Payments.{one_or_none}
use vpn_infrastructure_showc.Accounts.Telegram.{user_by_chat}
use vpn_infrastructure_showc.Bot.{
  Sender, account, outsider, Words, to_operator, from_support, how_to_reply, delivered, undelivered,
  support_off, too_many, not_handed_on, received, ApiRequest, ApiResponse, SupportRow, BotState,
  BotSettings, lift, send,
}

abbrev pub support_limit : ℕ
support_limit = 10

-- in microseconds, as the clock
abbrev pub support_window : ℕ
support_window = 3600 * 1000000

-- `while q and q[0] < now - _SUPPORT_WINDOW: q.popleft()`
unfoldable pub forget_before : ℕ → List ℕ → List ℕ
forget_before clock [] = []
forget_before clock (t ∷ q) =
    let rest = forget_before clock q in if ltb (t + support_window) clock then rest else t ∷ q

abbrev pub set_seen : ℕ → List ℕ → BotState → BotState
set_seen chat q s = record s { seen = λ c. if c == chat then q else s.seen c }

-- `_support_allowed`
unfoldable pub support_allowed : ℕ → ℕ → BotState → Bool × BotState
support_allowed chat clock s =
    let q = forget_before clock (s.seen chat) in
    if leb support_limit (length q)
    then (false, set_seen chat q s)
    else (true, set_seen chat (q ++ clock ∷ []) s)

unfoldable pub sender_of : String → Option User → Sender
sender_of name none = outsider name
sender_of name (some user) = account user.username user.plan

module _ (set : BotSettings) (api : List ApiRequest → ApiRequest → ApiResponse) where
  abbrev pub say : ℕ → Words → Exec BotState (Unit {0})
  say chat words s = (ok tt, (send set api chat words s).1)

  -- the customer's message reached the operator's chat under an id, or did not
  unfoldable pub handed_on : ℕ → Option ℕ × BotState → Result Words × BotState
  handed_on chat (none, s) = (ok not_handed_on, s)
  handed_on chat (some key, s) = (
    ok received,
    record s { support = s.support ++ record { admin_message_id = key; user_chat_id = chat } ∷ [] },
  )

  unfoldable pub hand_on : ℕ → ℕ → String → String → Option User → Exec BotState Words
  hand_on admin chat name text user s =
      handed_on chat
        (send set api admin (to_operator (sender_of name user) (first_chars 3500 text)) s)

  unfoldable pub if_allowed : Exec BotState Words → Bool × BotState → Result Words × BotState
  if_allowed m (false, s) = (ok too_many, s)
  if_allowed m (true, s) = m s

  -- `_to_support`
  unfoldable pub to_support : Option ℕ → ℕ → ℕ → String → String → Exec BotState Words
  to_support none clock chat name text s = (ok support_off, s)
  to_support (some admin) clock chat name text s =
      if_allowed (lift (user_by_chat chat) >>= hand_on admin chat name text)
        (support_allowed chat clock s)

  unfoldable pub tell_operator : ℕ → Option ℕ × BotState → Result (Unit {0}) × BotState
  tell_operator admin (id, s) = say admin (if is_some id then delivered else undelivered) s

  unfoldable pub reply_to_row : ℕ → String → Option SupportRow → Exec BotState (Unit {0})
  reply_to_row admin text none s = say admin how_to_reply s
  reply_to_row admin text (some row) s =
      tell_operator admin (send set api row.user_chat_id (from_support text) s)

  -- `_admin_reply`
  unfoldable pub admin_reply : ℕ → ℕ → String → Exec BotState (Unit {0})
  admin_reply admin key text s =
      (one_or_none (select (λ (r : SupportRow). r.admin_message_id == key) s.support)
          >>= reply_to_row admin text)
        s
