-- ===== src/Bot/Screens.antt =====
-- pwa/api/telegram.py: the menu card, what it says and to whom.
use text.Mathlib.Text.{is_le}
use Prim.Native.String.{compare}
use vpn_infrastructure_showc.Base.{
  ℕ, ◌+◌, String, Bool, ◌&&◌, ◌||◌, Option, none, some, List, [], ◌∷◌, ltb, ◌==◌, str_eq, holds,
  get_or_else, select, if◌then◌else◌,
}
use vpn_infrastructure_showc.Model.{User, Config, Portal, PromoCode}
use vpn_infrastructure_showc.Dict.{Dict, lookup, insert}
use vpn_infrastructure_showc.Exec.{Exec, ok, err, failure, ◌>>=◌}
use vpn_infrastructure_showc.Plans.{plan_info}
use vpn_infrastructure_showc.Subscriptions.{has_active_subscription}
use vpn_infrastructure_showc.Credit.Codes.{issue_code}
use vpn_infrastructure_showc.Accounts.{Server, with_db}
use vpn_infrastructure_showc.Accounts.Telegram.{user_by_chat}
use vpn_infrastructure_showc.Bot.{
  SubscriptionText, trial_until, no_subscription, runs_until, InviteText, needs_subscription,
  invitation, HomeState, subscribed_to, trying_to, inactive, Screen, status, help, not_linked,
  subscription, invite, home, stranger,
}

-- the moment of an update, and the codes that would be generated
pub record Moment : Type 0 where
  pub now : ℕ
  pub clock : ℕ
  pub generated : List String

-- `counts[loc or "de"] = counts.get(loc or "de", 0) + 1`
unfoldable pub count_places : List Config → Dict ℕ → Dict ℕ
count_places [] counts = counts
count_places (c ∷ cs) counts =
    let place = if str_eq c.location "" then "de" else c.location in
    count_places cs (insert place (get_or_else (lookup place counts) 0 + 1) counts)

unfoldable pub insert_sorted : String → ℕ → Dict ℕ → Dict ℕ
insert_sorted k n [] = (k, n) ∷ []
insert_sorted k n ((j, m) ∷ d) =
    let rest = insert_sorted k n d in
    if is_le (compare k j) then (k, n) ∷ (j, m) ∷ d else (j, m) ∷ rest

-- `sorted(counts.items())`
unfoldable pub by_place : Dict ℕ → Dict ℕ
by_place [] = []
by_place ((k, n) ∷ d) = insert_sorted k n (by_place d)

abbrev pub plan_name : Option String → String
plan_name none = ""
plan_name (some t) = t

abbrev pub is_trying : ℕ → User → Bool
is_trying now user = holds (λ until. ltb now until) user.trial_until

-- `_subscription_text`
unfoldable pub subscription_text : ℕ → User → Portal → SubscriptionText
subscription_text now user db =
    let places =
      count_places (select (λ (c : Config). (c.user_id == user.id) && c.is_active) db.configs) [] in
    if has_active_subscription user now
    then runs_until (plan_info (plan_name user.plan)) user.plan user.subscribed_until
        (by_place places)
    else if is_trying now user
    then trial_until (get_or_else user.trial_until 0)
    else no_subscription

unfoldable pub invited : Option (PromoCode × Portal) → Exec Server InviteText
invited none s = (err failure, s)
invited (some (promo, db)) s = (ok (invitation promo.code promo.discount_percent), with_db db s)

-- `_invite_text`
unfoldable pub invite_text : Moment → User → Exec Server InviteText
invite_text at user s =
    if has_active_subscription user at.now
    then invited (issue_code s.db user at.now at.generated) s
    else (ok needs_subscription, s)

unfoldable pub home_state : ℕ → User → HomeState
home_state now user =
    if has_active_subscription user now
    then subscribed_to user.subscribed_until
    else if is_trying now user
    then trying_to user.trial_until
    else inactive

unfoldable pub home_of : ℕ → String → String → Option User → Exec Server Screen
home_of now first_name ref none s = (ok (stranger first_name ref), s)
home_of now first_name ref (some user) s =
    (ok (home first_name (home_state now user) user.username), s)

-- `_home`
unfoldable pub home_screen : ℕ → ℕ → String → String → Exec Server Screen
home_screen now chat first_name ref = user_by_chat chat >>= home_of now first_name ref

unfoldable pub screen_of : Moment → ℕ → String → String → Option User → Exec Server Screen
screen_of at chat screen first_name none s =
    let other = home_screen at.now chat first_name "" s in
    if str_eq screen "sub" || str_eq screen "invite" then (ok not_linked, s) else other
screen_of at chat screen first_name (some user) s =
    let invited = (invite_text at user >>= λ text t. (ok (invite text), t)) s in
    let other = home_screen at.now chat first_name "" s in
    if str_eq screen "sub"
    then (ok (subscription (subscription_text at.now user s.db)), s)
    else if str_eq screen "invite"
    then invited
    else other

-- `_screen`
unfoldable pub screen : Moment → ℕ → String → String → Exec Server Screen
screen at chat name first_name s =
    let looked_up = (user_by_chat chat >>= screen_of at chat name first_name) s in
    if str_eq name "status"
    then (ok status, s)
    else if str_eq name "help"
    then (ok help, s)
    else looked_up
