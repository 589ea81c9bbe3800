-- ===== src/Credit/Codes.antt =====
-- Promo codes: how often one was used, whether this buyer may use it, and the customer's own code.
pub mod Usable
use vpn_infrastructure_showc.Base.{
  ℕ, suc, String, Bool, true, ◌&&◌, ◌||◌, not, Option, none, some, List, [], ◌∷◌, ◌++◌, leb, ◌==◌,
  str_eq, is_some, holds, if◌then◌else◌, count, find, take, first,
}
use vpn_infrastructure_showc.PyText.{strip, upper}
use vpn_infrastructure_showc.Model.{User, Payment, PromoCode, Portal}

-- the tokens that `resolve_code` gives as a reason
pub data Refusal : Type 0 where
  unknown inactive expired used_up own_code not_first : Refusal

-- `REFUSAL_TEXT`
unfoldable pub refusal_text : Refusal → String
refusal_text unknown = "Unknown code"
refusal_text inactive = "This code is no longer active"
refusal_text expired = "This code has expired"
refusal_text used_up = "This code has been used up"
refusal_text own_code = "You cannot use your own referral code"
refusal_text not_first = "A friend's code applies to the first purchase only"

-- a paid order that carried the code
abbrev pub carries : String → Payment → Bool
carries code p = holds (λ c. str_eq c code) p.promo_code && str_eq p.status "paid"

unfoldable pub uses_of : Portal → String → ℕ
uses_of db code = count (carries code) db.payments

-- a paid order of this account that was not opened from the admin panel
abbrev pub is_purchase : ℕ → Payment → Bool
is_purchase uid p =
    (p.user_id == uid)
    && (str_eq p.status "paid" || str_eq p.status "paid_over")
    && not (holds (λ v. str_eq v "manual") p.provider)

unfoldable pub is_first_purchase : Portal → User → Bool
is_first_purchase db user = count (is_purchase user.id) db.payments == 0

-- the code as it is stored: trimmed, in capitals
unfoldable pub find_code : Portal → String → Option PromoCode
find_code db code =
    let wanted = upper (strip code) in find (λ p. str_eq p.code wanted) db.promo_codes

-- the tests that `resolve_code` makes of the code that was found, in order
unfoldable pub refusal_of : Portal → User → ℕ → PromoCode → Option Refusal
refusal_of db buyer now promo =
    if not promo.is_active
    then some inactive
    else if holds (λ x. leb x now) promo.expires_at
    then some expired
    else if holds (λ n. leb n (uses_of db promo.code)) promo.max_uses
    then some used_up
    else if holds (λ o. o == buyer.id) promo.owner_user_id
    then some own_code
    else if is_some promo.owner_user_id && not (is_first_purchase db buyer)
    then some not_first
    else none

-- a code that is refused is given back with its reason, and no code
abbrev pub usable_or : PromoCode → Option Refusal → Option PromoCode × Option Refusal
usable_or promo none = (some promo, none)
usable_or promo (some reason) = (none, some reason)

unfoldable pub resolve_found :
    Portal → User → ℕ → Option PromoCode → Option PromoCode × Option Refusal
resolve_found db buyer now none = (none, some unknown)
resolve_found db buyer now (some promo) = usable_or promo (refusal_of db buyer now promo)

-- no code, or an empty one
abbrev pub is_blank : Option String → Bool
is_blank none = true
is_blank (some code) = str_eq code ""

-- `resolve_code`
unfoldable pub resolve_code : Portal → Option String → User → ℕ → Option PromoCode × Option Refusal
resolve_code db none buyer now = (none, none)
resolve_code db (some code) buyer now =
    if is_blank (some code) then (none, none) else resolve_found db buyer now (find_code db code)

-- `code_for`: the active code of a customer
unfoldable pub code_for : Portal → User → Option PromoCode
code_for db user =
    find (λ p. holds (λ o. o == user.id) p.owner_user_id && p.is_active) db.promo_codes

abbrev pub is_taken : Portal → String → Bool
is_taken db code = is_some (find (λ p. str_eq p.code code) db.promo_codes)

-- `unused_code`: the first of ten generated codes that is free; none is the RuntimeError. The
-- generated codes are an argument.
unfoldable pub unused_code : Portal → List String → Option String
unused_code db generated = find (λ code. not (is_taken db code)) (take 10 generated)

abbrev pub default_discount_percent : ℕ
default_discount_percent = 10

unfoldable pub referral_code : Portal → User → ℕ → String → PromoCode
referral_code db user now code = record {
  id = db.next_id;
  code = code;
  owner_user_id = some user.id;
  discount_percent = default_discount_percent;
  max_uses = none;
  is_active = true;
  expires_at = none;
  created_at = now;
  note = none;
}

-- `db.add(promo)`
unfoldable pub add_code : PromoCode → Portal → Portal
add_code promo db = record db {
  next_id = suc db.next_id;
  promo_codes = db.promo_codes ++ promo ∷ [];
}

unfoldable pub new_code : Portal → User → ℕ → Option String → Option (PromoCode × Portal)
new_code db user now none = none
new_code db user now (some code) =
    let promo = referral_code db user now code in some (promo, add_code promo db)

unfoldable pub issue_or_keep :
    Portal → User → ℕ → List String → Option PromoCode → Option (PromoCode × Portal)
issue_or_keep db user now generated (some existing) = some (existing, db)
issue_or_keep db user now generated none = new_code db user now (unused_code db generated)

-- `issue_code`
unfoldable pub issue_code : Portal → User → ℕ → List String → Option (PromoCode × Portal)
issue_code db user now generated = issue_or_keep db user now generated (code_for db user)
