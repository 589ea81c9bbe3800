-- ===== src/Admin/Promo.antt =====
-- pwa/api/admin_promo.py: campaign codes. The codes that the generator draws are an argument.
pub mod Unique
mod Examples
use Prim.Native.Char.{Char, code}
use Prim.Native.String
use vpn_infrastructure_showc.Base.{
  ℕ, suc, String, Bool, true, false, ◌&&◌, ◌||◌, Option, none, some, List, [], ◌∷◌, ◌++◌, leb, ◌==◌,
  str_eq, holds, is_some, find, update, if◌then◌else◌,
}
use vpn_infrastructure_showc.PyText.{strip, upper}
use vpn_infrastructure_showc.Model.{PromoCode, Portal}
use vpn_infrastructure_showc.Exec.{Exec, ok, err, http, failure, ◌>>=◌}
use vpn_infrastructure_showc.Credit.Codes.{unused_code}

abbrev pub max_discount_percent : ℕ
max_discount_percent = 60

abbrev pub is_code_char : Char → Bool
is_code_char c = (leb 65 (code c) && leb (code c) 90) || (leb 48 (code c) && leb (code c) 57)

unfoldable pub all_code_chars : String → Bool
all_code_chars String.[] = true
all_code_chars (String.◌∷◌ c s) = (is_code_char c || (code c == 45)) && all_code_chars s

unfoldable pub starts_with_code_char : String → Bool
starts_with_code_char String.[] = false
starts_with_code_char (String.◌∷◌ c s) = is_code_char c

-- `_CODE_RE.match`
abbrev pub code_matches : String → Bool
code_matches s =
    starts_with_code_char s && all_code_chars s && leb 3 (String.len s) && leb (String.len s) 32

-- `CreatePromoRequest`
pub record CreatePromoRequest : Type 0 where
  pub code : Option String
  pub discount_percent : ℕ
  pub max_uses : Option ℕ
  pub expires_at : Option ℕ
  pub note : Option String

abbrev pub at_least_one : Option ℕ → Bool
at_least_one none = true
at_least_one (some n) = leb 1 n

abbrev pub note_fits : Option String → Bool
note_fits none = true
note_fits (some s) = leb (String.len s) 255

-- the bounds of the request's fields: a request outside them is answered with 422
unfoldable pub is_request : CreatePromoRequest → Bool
is_request req =
    leb 1 req.discount_percent
    && leb req.discount_percent max_discount_percent
    && at_least_one req.max_uses
    && note_fits req.note

-- none left after ten tries is the RuntimeError
unfoldable pub generated_or_fail : Option String → Exec Portal String
generated_or_fail none db = (err failure, db)
generated_or_fail (some code) db = (ok code, db)

-- the code that was asked for, in capitals, or a generated one
unfoldable pub code_for_request : Option String → List String → Exec Portal String
code_for_request none drawn db = generated_or_fail (unused_code db drawn) db
code_for_request (some wanted) drawn db =
    let code = upper (strip wanted) in
    if str_eq wanted ""
    then generated_or_fail (unused_code db drawn) db
    else if code_matches code
    then (ok code, db)
    else (err (http 400 "A code is 3–32 characters: A–Z, 0–9 and dashes"), db)

unfoldable pub new_promo : CreatePromoRequest → String → ℕ → ℕ → PromoCode
new_promo req code key now = record {
  id = key;
  code = code;
  owner_user_id = none;
  discount_percent = req.discount_percent;
  max_uses = req.max_uses;
  is_active = true;
  expires_at = req.expires_at;
  created_at = now;
  note = req.note;
}

unfoldable pub add_promo : CreatePromoRequest → ℕ → String → Exec Portal PromoCode
add_promo req now code db =
    let promo = new_promo req code db.next_id now in
    if is_some (find (λ p. str_eq p.code code) db.promo_codes)
    then (err (http 409 "That code already exists"), db)
    else if holds (λ e. leb e now) req.expires_at
    then (err (http 400 "That expiry is in the past"), db)
    else (
      ok promo,
      record db { next_id = suc db.next_id; promo_codes = db.promo_codes ++ promo ∷ [] },
    )

-- `create_promo_code`
unfoldable pub create_promo_code : CreatePromoRequest → List String → ℕ → Exec Portal PromoCode
create_promo_code req drawn now db =
    let created = (code_for_request req.code drawn >>= add_promo req now) db in
    if is_request req then created else (err (http 422 "Unprocessable Entity"), db)

unfoldable pub switch_off : Option PromoCode → Exec Portal PromoCode
switch_off none db = (err (http 404 "No such code"), db)
switch_off (some promo) db =
    let off : PromoCode = record promo { is_active = false } in
    (ok off, record db { promo_codes = update (λ r. r.id == promo.id) (λ _. off) db.promo_codes })

-- `deactivate_promo_code`
unfoldable pub deactivate_promo_code : String → Exec Portal PromoCode
deactivate_promo_code code db =
    switch_off (find (λ p. str_eq p.code (upper (strip code))) db.promo_codes) db
