-- ===== src/Provisioner/Pool/Free.antt =====
-- The address that is found: in the pool, free, and the first such; none only if all are used.
use vpn_infrastructure_showc.Base.{
  ℕ, zero, suc, ◌+◌, ◌-◌, ◌≤◌, ◌<◌, String, ◌≡◌, Bool, true, false, none, some, List, arith, ◌==◌,
  ==_iff, Bool-cases, inl, inr,
}
use vpn_infrastructure_showc.Model.{Portal}
use vpn_infrastructure_showc.Provisioner.Pool.{Pool, address, is_used, first_free, find_free_ip}

-- Number `i` of the pool is the first that is not used.
pub record IsFirstFree (used : String → Bool) (prefix : String) (lo hi i : ℕ) : Type 0 where
  pub from : lo ≤ i
  pub until : i < hi
  pub free : used (address prefix i) ≡ false
  pub taken_before : (j : ℕ) → lo ≤ j → j < i → used (address prefix j) ≡ true

first_free-some :
    (used : String → Bool) (prefix : String) (n lo : ℕ) (ip : String)
    → first_free used prefix n lo ≡ some ip
    → (i : ℕ) × (ip ≡ address prefix i) × IsFirstFree used prefix lo (lo + n) i
unfolding first_free
first_free-some used prefix zero lo ip e = ground arith
first_free-some used prefix (suc n) lo ip e = elim (Bool-cases (used (address prefix lo))) [
  | inl taken ↦
      let (i, named, ih) = first_free-some used prefix n (lo + 1) ip (rw taken at e) in
      (
        i,
        named,
        record {
          from = omega (arith, ih.from);
          until = omega (arith, ih.until);
          free = ih.free;
          taken_before = λ j le lt. elim (Bool-cases (j == lo)) [
            | inl same ↦ rw ((==_iff j lo).0 same) taken
            | inr other ↦ ih.taken_before j (ground arith) lt
          ];
        },
      )
  | inr free ↦ (
    lo,
    ground arith,
    record {
      from = omega arith;
      until = omega arith;
      free = free;
      taken_before = λ j le lt. absurd (omega arith);
    },
  )
]

first_free-none :
    (used : String → Bool) (prefix : String) (n lo : ℕ)
    → first_free used prefix n lo ≡ none
    → (j : ℕ) → lo ≤ j
    → j < lo + n
    → used (address prefix j) ≡ true
unfolding first_free
first_free-none used prefix zero lo e j le lt = absurd (omega arith)
first_free-none used prefix (suc n) lo e j le lt = elim (Bool-cases (used (address prefix lo))) [
  | inl taken ↦ elim (Bool-cases (j == lo)) [
    | inl same ↦ rw ((==_iff j lo).0 same) taken
    | inr other ↦
        first_free-none used prefix n (lo + 1) (rw taken at e) j (ground arith) (omega arith)
  ]
  | inr free ↦ ground arith
]

module _ (db : Portal) (exclude : List String) (pool : Pool) (location : String) where
  abbrev pub used : String → Bool
  used = is_used db location exclude

  -- An address that is found is the first one of the pool that neither an active device of the
  -- same location holds nor the node reports.
  pub find_free_ip-first :
      (ip : String)
      → find_free_ip db exclude pool location ≡ some ip
      → (i : ℕ) × (ip ≡ address pool.prefix i)
        × IsFirstFree used pool.prefix pool.start (pool.start + (pool.end + 1 - pool.start)) i
  unfolding find_free_ip
  find_free_ip-first ip e =
      first_free-some used pool.prefix (pool.end + 1 - pool.start) pool.start ip e

  -- None is found only when every address of the pool is used.
  pub find_free_ip-exhausted :
      find_free_ip db exclude pool location ≡ none
      → (j : ℕ) → pool.start ≤ j
      → j ≤ pool.end
      → used (address pool.prefix j) ≡ true
  unfolding find_free_ip
  find_free_ip-exhausted e j le lt =
      first_free-none used pool.prefix (pool.end + 1 - pool.start) pool.start e j le (omega arith)
