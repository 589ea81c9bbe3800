-- ===== src/RateLimit/Prune.antt =====
-- What `_prune`, `add` and the sweep do to the queue of each key.
use vpn_infrastructure_showc.Base.{
  ℕ, ◌+◌, ◌*◌, String, ◌≡◌, refl, List, [], ◌∷◌, ◌++◌, arith, str_eq, eq_iff, if◌then◌else◌,
  get_or_else, leb, Bool-cases, ◌∙◌, Option-cases, inl, inr,
}
use vpn_infrastructure_showc.Dict.{lookup, insert, keys, lookup-insert, lookup-remove}
use vpn_infrastructure_showc.RateLimit.{
  Limiter, sweep_every, second, pop_expired, keep, prune_found, prune, sweep, sweep_if_due, add,
}

-- the queue of a key; a key that is not there has none
abbrev pub seen : String → Limiter → List ℕ
seen key l = get_or_else (lookup key l.events) []

abbrev pub width : Limiter → ℕ
width l = l.window * second

module _ (key : String) (now : ℕ) (l : Limiter) where
  seen-keep :
      (j : String) (q : List ℕ) → seen j (keep key q l).1 ≡ (if str_eq key j then q else seen j l)
  unfolding keep
  seen-keep j [] = rw lookup-remove (ground arith)
  seen-keep j (t ∷ q) = rw lookup-insert (ground arith)

  queue-keep : (q : List ℕ) → get_or_else (keep key q l).0 [] ≡ q
  unfolding keep
  queue-keep [] = refl
  queue-keep (t ∷ q) = refl

  pub seen-prune :
      (j : String)
      → seen j (prune key now l).1
        ≡ (if str_eq key j then pop_expired (width l) now (seen j l) else seen j l)
  unfolding prune prune_found pop_expired
  seen-prune j = elim (Option-cases (lookup key l.events)) [
    | inl missing ↦ ground (arith, eq_iff key j)
    | inr (q, found) ↦ ground (arith, eq_iff key j, seen-keep j (pop_expired (width l) now q))
  ]

  pub queue-prune : get_or_else (prune key now l).0 [] ≡ pop_expired (width l) now (seen key l)
  unfolding prune prune_found pop_expired
  queue-prune = elim (Option-cases (lookup key l.events)) [
    | inl missing ↦ ground arith
    | inr (q, found) ↦ ground (arith, queue-keep (pop_expired (width l) now q))
  ]

  limit-keep :
      (q : List ℕ) → ((keep key q l).1.limit ≡ l.limit) × ((keep key q l).1.window ≡ l.window)
  unfolding keep
  limit-keep [] = (refl, refl)
  limit-keep (t ∷ q) = (refl, refl)

  pub limit-prune : ((prune key now l).1.limit ≡ l.limit) × ((prune key now l).1.window ≡ l.window)
  unfolding prune prune_found pop_expired
  limit-prune = elim (Option-cases (lookup key l.events)) [
    | inl missing ↦ ground arith
    | inr (q, found) ↦ ground (arith, limit-keep (pop_expired (width l) now q))
  ]

pub limit-sweep :
    (now : ℕ) (ks : List String) (l : Limiter)
    → ((sweep ks now l).limit ≡ l.limit) × ((sweep ks now l).window ≡ l.window)
unfolding sweep
limit-sweep now [] l = (refl, refl)
limit-sweep now (k ∷ ks) l =
    let later = limit-sweep now ks (prune k now l).1 in
    let one = limit-prune k now l in (later.0 ∙ one.0, later.1 ∙ one.1)

limit-sweep_if_due :
    (now : ℕ) (l : Limiter)
    → ((sweep_if_due now l).limit ≡ l.limit) × ((sweep_if_due now l).window ≡ l.window)
unfolding sweep_if_due
limit-sweep_if_due now l = elim (Bool-cases (leb sweep_every l.since_sweep)) [
  | inl due ↦ rw due (limit-sweep now (keys l.events) (record l { since_sweep = 0 }))
  | inr not_due ↦ rw not_due (refl, refl)
]

pub limit-add :
    (key : String) (now : ℕ) (l : Limiter)
    → ((add key now l).limit ≡ l.limit) × ((add key now l).window ≡ l.window)
unfolding add
limit-add key now l = limit-sweep_if_due now (record l {
  events = insert key (seen key l ++ now ∷ []) l.events;
  since_sweep = l.since_sweep + 1;
})
