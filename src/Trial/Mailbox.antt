-- ===== src/Trial/Mailbox.antt =====
-- pwa/services/trial.py: one text for each mailbox, the throwaway domains, and the switch.
use Prim.Native.Char.{code}
use Prim.Native.String.{◌++◌}
use vpn_infrastructure_showc.Base.{
  String, Bool, true, false, ◌||◌, Option, none, some, List, [], ◌∷◌, any, ◌==◌, str_eq,
  if◌then◌else◌,
}
use vpn_infrastructure_showc.PyText.{strip, lower}

-- `trial_enabled`, on the value of TRIAL_ENABLED
unfoldable pub trial_enabled : String → Bool
trial_enabled value = any (str_eq (lower (strip value))) ("1" ∷ "true" ∷ "yes" ∷ "on" ∷ [])

prepend : String → Option (String × String) → Option (String × String)
prepend c none = none
prepend c (some (before, after)) = some (c ++ before, after)

or_here : Option (String × String) → Bool → String → Option (String × String)
or_here (some parts) is_at s = some parts
or_here none true s = some ("", s)
or_here none false s = none

-- what stands before and after the last `@`, if there is one
last_at : String → Option (String × String)
unfolding prepend or_here
last_at String.[] = none
last_at (String.◌∷◌ c s) = or_here (prepend (String.◌∷◌ c "") (last_at s)) (code c == b'@') s

parts_or_all : String → Option (String × String) → String × String
parts_or_all s none = ("", s)
parts_or_all s (some parts) = parts

-- `s.rpartition("@")`, without the separator: all of the text is the last part if there is no `@`
unfoldable pub rpartition_at : String → String × String
unfolding last_at parts_or_all
rpartition_at s = parts_or_all s (last_at s)

-- `s.split("+", 1)[0]`
unfoldable pub before_plus : String → String
before_plus String.[] = ""
before_plus (String.◌∷◌ c s) =
    let rest = before_plus s in if code c == b'+' then "" else String.◌∷◌ c rest

-- `s.replace(".", "")`
unfoldable pub without_dots : String → String
without_dots String.[] = ""
without_dots (String.◌∷◌ c s) =
    let rest = without_dots s in if code c == b'.' then rest else String.◌∷◌ c rest

-- `_ALIASES.get(domain, domain)`
unfoldable pub alias : String → String
alias domain =
    if str_eq domain "googlemail.com"
    then "gmail.com"
    else if str_eq domain "ya.ru"
    then "yandex.ru"
    else domain

-- `domain in _DOTLESS`
abbrev pub is_dotless : String → Bool
is_dotless domain = str_eq domain "gmail.com" || str_eq domain "googlemail.com"

unfoldable pub normalise_parts : String × String → String
normalise_parts (local, domain) =
    let local' = before_plus local in
    let domain' = alias domain in
    (if is_dotless domain' then without_dots local' else local') ++ "@" ++ domain'

-- `normalise_email`
unfoldable pub normalise_email : String → String
normalise_email email = normalise_parts (rpartition_at (lower (strip email)))

unfoldable pub disposable_domains : List String
disposable_domains =
    "10minutemail.com" ∷ "10minutemail.net" ∷ "20minutemail.com" ∷ "byom.de" ∷ "discard.email"
    ∷ "dispostable.com" ∷ "dropmail.me" ∷ "emailondeck.com" ∷ "fakeinbox.com" ∷ "getairmail.com"
    ∷ "getnada.com" ∷ "guerrillamail.com" ∷ "guerrillamail.net" ∷ "guerrillamail.org"
    ∷ "guerrillamailblock.com" ∷ "inboxkitten.com" ∷ "mail.tm" ∷ "mailcatch.com" ∷ "maildrop.cc"
    ∷ "mailinator.com" ∷ "mailnesia.com" ∷ "mintemail.com" ∷ "mohmal.com" ∷ "mytemp.email"
    ∷ "nada.email" ∷ "sharklasers.com" ∷ "spamgourmet.com" ∷ "temp-mail.io" ∷ "temp-mail.org"
    ∷ "tempail.com" ∷ "tempmail.com" ∷ "tempmail.net" ∷ "tempmailo.com" ∷ "tempr.email"
    ∷ "throwawaymail.com" ∷ "trashmail.com" ∷ "trashmail.de" ∷ "yopmail.com" ∷ "yopmail.fr"
    ∷ "yopmail.net" ∷ "crazymailing.com" ∷ "emailfake.com" ∷ "1secmail.com" ∷ "1secmail.net"
    ∷ "1secmail.org" ∷ "internxt.com" ∷ "tmpmail.org" ∷ []

-- `s.endswith(suffix)`
unfoldable pub ends_with : String → String → Bool
ends_with String.[] suffix = str_eq "" suffix
ends_with (String.◌∷◌ c s) suffix = str_eq (String.◌∷◌ c s) suffix || ends_with s suffix

-- `is_disposable`
unfoldable pub is_disposable : String → Bool
is_disposable email =
    let (local, domain) = rpartition_at (lower (strip email)) in
    any (λ d. str_eq domain d || ends_with domain ("." ++ d)) disposable_domains
