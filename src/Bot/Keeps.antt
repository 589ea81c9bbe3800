-- ===== src/Bot/Keeps.antt =====
-- What every step of the bot keeps, if its requests and its writes on the accounts keep it.
use vpn_infrastructure_showc.Base.{
  ℕ, String, ◌≡◌, refl, Bool, true, false, ◌&&◌, ◌||◌, not, Option, List, [], ◌∷◌, ◌++◌,
  get_or_else, Bool-cases, inl, inr, if◌then◌else◌,
}
use vpn_infrastructure_showc.PyText.{lower}
use vpn_infrastructure_showc.Exec.{Exec, Result, ok, err, then_do, ◌>>=◌}
use vpn_infrastructure_showc.Payments.{one_or_none}
use vpn_infrastructure_showc.Accounts.{Server}
use vpn_infrastructure_showc.Bot.{
  contains, Words, to_operator, dots, ApiRequest, send_message, send_animation, edit_caption,
  edit_text, answer_query, delete_message, ApiResponse, BotState, BotSettings, lift, call, send,
  menu_sent, send_menu, edit_again, edited, edit_menu, answer_callback, dropped, drop_keyboard,
  on_server,
}

abbrev pub words_handed : Words → Bool
words_handed (to_operator sender text) = true
words_handed w = false

-- a request that carries a customer's message to the operator
abbrev pub is_handed : ApiRequest → Bool
is_handed (send_message chat w) = words_handed w
is_handed (send_animation chat url w) = words_handed w
is_handed (edit_caption chat key w) = words_handed w
is_handed (edit_text chat key w) = words_handed w
is_handed (answer_query key) = false
is_handed (delete_message chat key) = false

-- the writes that do not hand a message on
pub record IsClosed (I : BotState → Type 0) : Type 0 where
  pub requests :
      (s : BotState) (r : ApiRequest)
      → is_handed r ≡ false
      → I s
      → I (record s { requests = s.requests ++ r ∷ [] })
  pub accounts : (s : BotState) (v : Server) → I s → I (record s { server = v })
  pub banner : (s : BotState) (b : Option String) → I s → I (record s { banner_id = b })

abbrev pub Keeps : {A : Type 0} → (BotState → Type 0) → Exec BotState A → Type 0
Keeps I m = (s : BotState) → I s → I (m s).1

module _ (I : BotState → Type 0) (h : IsClosed I) where
  then_do-I :
      {A B : Type 0} (f : A → Exec BotState B) (r : Result A × BotState)
      → ((a : A) → Keeps I (f a))
      → I r.1
      → I (then_do f r).1
  then_do-I f (ok a, t) ks j = ks a t j
  then_do-I f (err e, t) ks j = j

  pub bind-Keeps :
      {A B : Type 0} (m : Exec BotState A) (f : A → Exec BotState B)
      → Keeps I m
      → ((a : A) → Keeps I (f a))
      → Keeps I (m >>= f)
  bind-Keeps m f k ks s i = then_do-I f (m s) ks (k s i)

  on_server-I : {A : Type 0} (s : BotState) (r : Result A × Server) → I s → I (on_server r s).1
  on_server-I s (r, v) i = h.accounts s v i

  lift-Keeps : {A : Type 0} (m : Exec Server A) → Keeps I (lift m)
  lift-Keeps m s i = on_server-I s (m s.server) i

  pub lift_then-Keeps :
      {A B : Type 0} (m : Exec Server A) (f : A → Exec BotState B)
      → ((a : A) → Keeps I (f a))
      → Keeps I (lift m >>= f)
  lift_then-Keeps m f ks = bind-Keeps (lift m) f (lift-Keeps m) ks

  pub if-I :
      {A : Type 0} (b : Bool) (x y : Result A × BotState)
      → (b ≡ true → I x.1)
      → (b ≡ false → I y.1)
      → I (if b then x else y).1
  if-I true x y i j = i refl
  if-I false x y i j = j refl

  one_or_none-Keeps : {A : Type 0} (xs : List A) → Keeps I (one_or_none xs)
  one_or_none-Keeps [] s i = i
  one_or_none-Keeps (x ∷ []) s i = i
  one_or_none-Keeps (x ∷ y ∷ xs) s i = i

  pub row_then-Keeps :
      {A B : Type 0} (xs : List A) (f : Option A → Exec BotState B)
      → ((o : Option A) → Keeps I (f o))
      → Keeps I (one_or_none xs >>= f)
  row_then-Keeps xs f ks = bind-Keeps (one_or_none xs) f (one_or_none-Keeps xs) ks

  module _ (set : BotSettings) (api : List ApiRequest → ApiRequest → ApiResponse) where
    call-I : (r : ApiRequest) (s : BotState) → is_handed r ≡ false → I s → I (call set api r s).1
    unfolding call
    call-I r s plain i = elim (Bool-cases set.enabled) [
      | inl on ↦ rw on (h.requests s r plain i)
      | inr off ↦ rw off i
    ]

    pub send-I :
        (chat : ℕ) (w : Words) (s : BotState)
        → words_handed w ≡ false
        → I s
        → I (send set api chat w s).1
    unfolding send
    send-I chat w s plain i = call-I (send_message chat w) s plain i

    menu_sent-I :
        (chat : ℕ) (w : Words) (r : ApiResponse × BotState)
        → words_handed w ≡ false
        → I r.1
        → I (menu_sent set api chat w r).1
    unfolding menu_sent
    menu_sent-I chat w (r, s) plain i = elim (Bool-cases r.ok) [
      | inl yes_ok ↦ rw yes_ok (h.banner s _ i)
      | inr not_ok ↦ rw not_ok (call-I (send_message chat w) s plain i)
    ]

    pub send_menu-I :
        (chat : ℕ) (w : Words) (s : BotState)
        → words_handed w ≡ false
        → I s
        → I (send_menu set api chat w s).1
    unfolding send_menu
    send_menu-I chat w s plain i =
        menu_sent-I chat w _ plain
          (call-I (send_animation chat (get_or_else s.banner_id set.banner_url) w) s plain i)

    edit_again-I :
        (chat key : ℕ) (w : Words) (r : ApiResponse × BotState)
        → words_handed w ≡ false
        → I r.1
        → I (edit_again set api chat key w r).1
    unfolding edit_again
    edit_again-I chat key w (r, s) plain i =
        elim (Bool-cases (not r.ok && contains (lower r.description) "no caption")) [
          | inl again ↦ rw again (call-I (edit_text chat key w) s plain i)
          | inr done ↦ rw done i
        ]

    edited-I :
        (chat : ℕ) (w : Words) (r : ApiResponse × BotState)
        → words_handed w ≡ false
        → I r.1
        → I (edited set api chat w r)
    unfolding edited
    edited-I chat w (r, s) plain i =
        elim (Bool-cases (r.ok || contains r.description "not modified")) [
          | inl done ↦ rw done i
          | inr gone ↦ rw gone (send_menu-I chat w s plain i)
        ]

    pub edit_menu-I :
        (chat key : ℕ) (w : Words) (s : BotState)
        → words_handed w ≡ false
        → I s
        → I (edit_menu set api chat key w s)
    unfolding edit_menu
    edit_menu-I chat key w s plain i =
        edited-I chat w _ plain
          (edit_again-I chat key w _ plain (call-I (edit_caption chat key w) s plain i))

    pub answer_callback-I : (key : String) (s : BotState) → I s → I (answer_callback set api key s)
    unfolding answer_callback
    answer_callback-I key s i = call-I (answer_query key) s refl i

    dropped-I : (chat : ℕ) (r : ApiResponse × BotState) → I r.1 → I (dropped set api chat r)
    unfolding dropped
    dropped-I chat (r, s) i = elim (Bool-cases r.ok) [
      | inl there ↦ rw there (call-I (delete_message chat r.message_id) s refl i)
      | inr nothing ↦ rw nothing i
    ]

    pub drop_keyboard-I : (chat : ℕ) (s : BotState) → I s → I (drop_keyboard set api chat s)
    unfolding drop_keyboard
    drop_keyboard-I chat s i = dropped-I chat _ (call-I (send_message chat dots) s refl i)
