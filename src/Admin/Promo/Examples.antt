-- ===== src/Admin/Promo/Examples.antt =====
-- Tests and witnesses for campaign codes.
use vpn_infrastructure_showc.Base.{ℕ, String, ◌≡◌, refl, false, none, some, [], ◌∷◌, arith, map}
use vpn_infrastructure_showc.PyText.{strip, upper}
use vpn_infrastructure_showc.Exec.{err, http}
use vpn_infrastructure_showc.Sample.{portal}
use vpn_infrastructure_showc.Admin.Promo.{
  CreatePromoRequest, is_request, all_code_chars, starts_with_code_char, code_for_request,
  new_promo, add_promo, create_promo_code, switch_off, deactivate_promo_code,
}
use vpn_infrastructure_showc.Admin.Promo.Unique.{HasSafeCodes, create_promo_code-HasSafeCodes}

abbrev request : ℕ → String → CreatePromoRequest
request percent code = record {
  code = some code;
  discount_percent = percent;
  max_uses = some 50;
  expires_at = some 2000;
  note = none;
}

made :
    map (λ p. p.code) (create_promo_code (request 20 " sept15 ") [] 1000 (portal [])).1.promo_codes
    ≡ "FRIEND" ∷ "SEPT15" ∷ []
unfolding create_promo_code is_request code_for_request starts_with_code_char all_code_chars strip
    upper add_promo new_promo
made = refl

clash :
    (create_promo_code (request 20 "friend") [] 1000 (portal [])).0
    ≡ err (http 409 "That code already exists")
unfolding create_promo_code is_request code_for_request starts_with_code_char all_code_chars strip
    upper add_promo
clash = refl

too_much :
    (create_promo_code (request 61 "BIG") [] 1000 (portal [])).0
    ≡ err (http 422 "Unprocessable Entity")
unfolding create_promo_code is_request
too_much = refl

switched_off :
    map (λ p. p.is_active) (deactivate_promo_code "friend" (portal [])).1.promo_codes ≡ false ∷ []
unfolding deactivate_promo_code switch_off strip upper
switched_off = refl

create_promo_code-HasSafeCodes_example :
    HasSafeCodes (create_promo_code (request 20 "SEPT15") [] 1000 (portal [])).1
create_promo_code-HasSafeCodes_example =
    create_promo_code-HasSafeCodes (request 20 "SEPT15") [] 1000 (portal [])
      (record { apart = λ code. ground arith; modest = ((λ owned. omega arith), tt) })
