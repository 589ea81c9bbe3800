-- ===== src/Credit/Codes/Usable.antt =====
-- Which codes a buyer may use, and that issuing one is repeatable.
use mathlib.Core.Path.{subst}
use vpn_infrastructure_showc.Base.{
  ℕ, ◌<◌, String, ◌≡◌, ◌≢◌, refl, ◌↔◌, Bool, true, false, Option, none, some, List, arith, gt→leb,
  ==_self, str_eq, holds, leb, find-append, Option-cases, inl, inr,
}
use vpn_infrastructure_showc.Model.{User, PromoCode, Portal}
use vpn_infrastructure_showc.Credit.Codes.{
  refusal_of, resolve_found, resolve_code, uses_of, is_first_purchase, find_code, code_for,
  issue_code, issue_or_keep, new_code, referral_code, add_code, unused_code,
}

-- What makes a stored code usable by this buyer at this moment.
pub record IsUsable (db : Portal) (buyer : User) (now : ℕ) (promo : PromoCode) : Type 0 where
  pub active : promo.is_active ≡ true
  pub unexpired : (x : ℕ) → promo.expires_at ≡ some x → now < x
  pub room : (n : ℕ) → promo.max_uses ≡ some n → uses_of db promo.code < n
  pub not_own : promo.owner_user_id ≢ some buyer.id
  pub invitation : promo.owner_user_id ≢ none → is_first_purchase db buyer ≡ true

module _ (db : Portal) (buyer : User) (now : ℕ) (promo : PromoCode) where
  refusal_of-none : refusal_of db buyer now promo ≡ none → IsUsable db buyer now promo
  unfolding refusal_of
  refusal_of-none e = record {
    active = ground arith;
    unexpired = λ x h. ground arith;
    room = λ n h. ground arith;
    not_own = λ h. ground arith;
    invitation = λ h. ground arith;
  }

  -- an optional bound that is met whenever it is there fails the test against it
  holds-false :
      (p : ℕ → Bool) (o : Option ℕ) → ((x : ℕ) → o ≡ some x → p x ≡ false) → holds p o ≡ false
  holds-false p none h = refl
  holds-false p (some x) h = h x refl

  IsUsable-refusal_of : IsUsable db buyer now promo → refusal_of db buyer now promo ≡ none
  unfolding refusal_of
  IsUsable-refusal_of u = ground (
    arith,
    u.active,
    holds-false (λ x. leb x now) promo.expires_at (λ x h. gt→leb x now (u.unexpired x h)),
    holds-false (λ n. leb n (uses_of db promo.code)) promo.max_uses
        (λ n h. gt→leb n (uses_of db promo.code) (u.room n h)),
    u.not_own,
    u.invitation,
  )

-- A code typed at the checkout is accepted exactly when it is not empty, is the code of a stored
-- promo, and that promo is usable: active, not expired, below its limit of paid orders, not the
-- buyer's own, and, if it belongs to a customer, on the buyer's first purchase.
pub resolve_code-IsUsable :
    (db : Portal) (buyer : User) (now : ℕ) (code : String) (promo : PromoCode)
    → (resolve_code db (some code) buyer now ≡ (some promo, none))
      ↔ ((str_eq code "" ≡ false) × (find_code db code ≡ some promo) × IsUsable db buyer now promo)
unfolding resolve_code resolve_found
resolve_code-IsUsable db buyer now code promo = elim (Option-cases (find_code db code)) [
  | inl missing ↦ (λ e. ground arith, λ h. ground arith)
  | inr (found, e) ↦ elim (Option-cases (refusal_of db buyer now found)) [
    | inl fine ↦ (
      λ h. (
        ground arith,
        ground arith,
        subst (IsUsable db buyer now) (ground arith) (refusal_of-none db buyer now found fine),
      ),
      λ h. ground (arith, h.0, h.1),
    )
    | inr (reason, refused) ↦ (
      λ h. ground arith,
      λ h. cc (IsUsable-refusal_of db buyer now found (subst (IsUsable db buyer now) (cc) h.2)),
    )
  ]
]

code_for-add_code :
    (db : Portal) (user : User) (now : ℕ) (code : String)
    → code_for db user ≡ none
    → let promo = referral_code db user now code in code_for (add_code promo db) user ≡ some promo
unfolding code_for add_code referral_code
code_for-add_code db user now code fresh = rw (find-append _ db.promo_codes _ fresh, ==_self)

-- a code that was made is the one that is found next
issue_code-made :
    (db db' : Portal) (user : User) (now later : ℕ) (again : List String) (code : String)
    (promo : PromoCode)
    → code_for db user ≡ none
    → new_code db user now (some code) ≡ some (promo, db')
    → issue_code db' user later again ≡ some (promo, db')
unfolding issue_code issue_or_keep new_code
issue_code-made db db' user now later again code promo fresh h =
    ground (arith, code_for-add_code db user now code fresh)

-- Asking for a code again, at any time and with any generator, gives the code that was issued and
-- changes nothing: a customer never gets a second active code this way.
issue_code-again :
    (db db' : Portal) (user : User) (now later : ℕ) (generated again : List String)
    (promo : PromoCode)
    → issue_code db user now generated ≡ some (promo, db')
    → issue_code db' user later again ≡ some (promo, db')
unfolding issue_code issue_or_keep new_code
issue_code-again db db' user now later generated again promo h =
    elim (Option-cases (code_for db user)) [
      | inl fresh ↦ elim (Option-cases (unused_code db generated)) [
        | inl exhausted ↦ ground arith
        | inr (code, free) ↦
            issue_code-made db db' user now later again code promo fresh (ground arith)
      ]
      | inr (existing, found) ↦ ground arith
    ]
