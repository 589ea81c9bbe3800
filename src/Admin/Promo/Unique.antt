-- ===== src/Admin/Promo/Unique.antt =====
-- Codes stay apart, and a campaign code gives at most sixty per cent.
use mathlib.Core.Path.{subst}
use vpn_infrastructure_showc.Base.{
  ℕ, ◌≤◌, String, ◌≡◌, refl, Bool, true, false, Bool-cases, inl, inr, Option, none, some, List, [],
  ◌∷◌, arith, leb, str_eq, eq_iff, holds, is_some, find, count, count-append, All, All-append,
}
use vpn_infrastructure_showc.PyText.{strip, upper}
use vpn_infrastructure_showc.Model.{PromoCode, Portal}
use vpn_infrastructure_showc.Exec.{then_do}
use vpn_infrastructure_showc.Credit.Codes.{unused_code}
use vpn_infrastructure_showc.Admin.Promo.{
  CreatePromoRequest, is_request, code_for_request, generated_or_fail, code_matches, new_promo,
  add_promo, create_promo_code,
}

-- Every campaign code gives at most sixty per cent, every code at most a hundred per cent, and no
-- code is that of two rows.
abbrev pub has_code : String → PromoCode → Bool
has_code code p = str_eq p.code code

abbrev pub IsModest : PromoCode → Type 0
IsModest p = p.owner_user_id ≡ none → p.discount_percent ≤ 60

pub record HasSafeCodes (db : Portal) : Type 0 where
  pub apart : (code : String) → count (has_code code) db.promo_codes ≤ 1
  pub modest : All IsModest db.promo_codes

count-none_found :
    {A : Type 0} (p : A → Bool) (xs : List A) → is_some (find p xs) ≡ false → count p xs ≡ 0
count-none_found p [] h = refl
count-none_found p (x ∷ xs) h = ground (arith, count-none_found p xs)

add_promo-HasSafeCodes :
    (req : CreatePromoRequest) (now : ℕ) (code : String) (db : Portal)
    → req.discount_percent ≤ 60
    → HasSafeCodes db
    → HasSafeCodes (add_promo req now code db).1
unfolding add_promo new_promo
add_promo-HasSafeCodes req now code db le h =
    let promo = new_promo req code db.next_id now in
    elim (Bool-cases (is_some (find (λ (p : PromoCode). str_eq p.code code) db.promo_codes))) [
      | inl clash ↦ rw clash h
      | inr free ↦ elim (Bool-cases (holds (λ e. leb e now) req.expires_at)) [
        | inl past ↦ rw (free, past) h
        | inr ahead ↦
            rw (free, ahead)
              (record {
                apart = λ c.
                    rw (count-append (has_code c) db.promo_codes (promo ∷ []))
                      (elim (Bool-cases (str_eq code c)) [
                        | inl same ↦ ground (
                          arith,
                          same,
                          subst (λ k. count (has_code k) db.promo_codes ≡ 0)
                              ((eq_iff code c).0 same)
                              (count-none_found (has_code code) db.promo_codes free),
                        )
                        | inr other ↦ ground (arith, other, h.apart c)
                      ]);
                modest = All-append IsModest db.promo_codes (promo ∷ []) h.modest ((λ _. le), tt);
              })
      ]
    ]

generated-HasSafeCodes :
    (req : CreatePromoRequest) (now : ℕ) (drawn : Option String) (db : Portal)
    → req.discount_percent ≤ 60
    → HasSafeCodes db
    → HasSafeCodes (then_do (add_promo req now) (generated_or_fail drawn db)).1
unfolding generated_or_fail
generated-HasSafeCodes req now none db le h = h
generated-HasSafeCodes req now (some code) db le h = add_promo-HasSafeCodes req now code db le h

asked-HasSafeCodes :
    (req : CreatePromoRequest) (asked : Option String) (drawn : List String) (now : ℕ) (db : Portal)
    → req.discount_percent ≤ 60
    → HasSafeCodes db
    → HasSafeCodes (then_do (add_promo req now) (code_for_request asked drawn db)).1
unfolding code_for_request
asked-HasSafeCodes req none drawn now db le h =
    generated-HasSafeCodes req now (unused_code db drawn) db le h
asked-HasSafeCodes req (some wanted) drawn now db le h = elim (Bool-cases (str_eq wanted "")) [
  | inl empty ↦ rw empty (generated-HasSafeCodes req now (unused_code db drawn) db le h)
  | inr given ↦ elim (Bool-cases (code_matches (upper (strip wanted)))) [
    | inl fits ↦ rw (given, fits) (add_promo-HasSafeCodes req now (upper (strip wanted)) db le h)
    | inr wrong ↦ rw (given, wrong) h
  ]
]

is_request-le : (req : CreatePromoRequest) → is_request req ≡ true → req.discount_percent ≤ 60
unfolding is_request
is_request-le req h = ground (arith, h)

-- Creating a campaign code, whatever is asked for and drawn and whatever the answer, leaves no code
-- in two rows and no code without an owner that gives more than sixty per cent, if that was so
-- before.
pub create_promo_code-HasSafeCodes :
    (req : CreatePromoRequest) (drawn : List String) (now : ℕ) (db : Portal)
    → HasSafeCodes db
    → HasSafeCodes (create_promo_code req drawn now db).1
unfolding create_promo_code
create_promo_code-HasSafeCodes req drawn now db h = elim (Bool-cases (is_request req)) [
  | inl valid ↦ rw valid (asked-HasSafeCodes req req.code drawn now db (is_request-le req valid) h)
  | inr invalid ↦ rw invalid h
]
