-- ===== src/RateLimit/Window.antt =====
-- The events of a queue that are still inside the window, and how the pruning loop finds them.
use vpn_infrastructure_showc.Base.{
  ℕ, suc, ◌+◌, ◌≤◌, ◌≡◌, refl, List, [], ◌∷◌, ◌++◌, arith, ltb, length, select,
}
use vpn_infrastructure_showc.RateLimit.{pop_expired}

-- the times whose window of `w` is still open at `now`
abbrev pub recent : ℕ → ℕ → List ℕ → List ℕ
recent w now q = select (λ t. ltb now (t + w)) q

-- from `lo` on, in order, and none later than `hi`
abbrev pub InOrder : ℕ → ℕ → List ℕ → Type 0
InOrder lo hi [] = lo ≤ hi
InOrder lo hi (t ∷ q) = (lo ≤ t) × InOrder t hi q

pub InOrder-le : (lo hi : ℕ) (q : List ℕ) → InOrder lo hi q → lo ≤ hi
InOrder-le lo hi [] h = h
InOrder-le lo hi (t ∷ q) h = omega (arith, InOrder-le t hi q h.1)

pub InOrder-lower : (k lo hi : ℕ) (q : List ℕ) → k ≤ lo → InOrder lo hi q → InOrder k hi q
InOrder-lower k lo hi [] le h = omega arith
InOrder-lower k lo hi (t ∷ q) le h = (omega arith, h.1)

pub InOrder-snoc :
    (lo hi now : ℕ) (q : List ℕ) → hi ≤ now → InOrder lo hi q → InOrder lo now (q ++ now ∷ [])
InOrder-snoc lo hi now [] le h = (omega arith, omega arith)
InOrder-snoc lo hi now (t ∷ q) le h = (h.0, InOrder-snoc t hi now q le h.1)

-- all of a queue in order that begins inside the window is inside it
recent_all :
    (w now lo hi : ℕ) (q : List ℕ) → suc now ≤ lo + w → InOrder lo hi q → recent w now q ≡ q
recent_all w now lo hi [] le h = refl
recent_all w now lo hi (t ∷ q) le h = ground (arith, recent_all w now t hi q)

-- Popping from the left removes exactly the expired events, since the queue is in order.
pub pop_expired-eq-recent :
    (w now lo hi : ℕ) (q : List ℕ) → InOrder lo hi q → pop_expired w now q ≡ recent w now q
unfolding pop_expired
pop_expired-eq-recent w now lo hi [] h = refl
pop_expired-eq-recent w now lo hi (t ∷ q) h =
    ground (arith, pop_expired-eq-recent w now t hi q h.1, recent_all w now t hi q)

pub pop_expired-InOrder :
    (w now lo hi : ℕ) (q : List ℕ) → InOrder lo hi q → InOrder lo hi (pop_expired w now q)
unfolding pop_expired
pop_expired-InOrder w now lo hi [] h = h
pop_expired-InOrder w now lo hi (t ∷ q) h =
    ground
      (arith, pop_expired-InOrder w now t hi q h.1, InOrder-lower lo t hi (pop_expired w now q))

-- what has left the window stays outside it
pub recent-recent : (w a b : ℕ) (q : List ℕ) → a ≤ b → recent w b (recent w a q) ≡ recent w b q
recent-recent w a b [] le = refl
recent-recent w a b (t ∷ q) le = ground (arith, recent-recent w a b q le)

pub recent-append :
    (w now : ℕ) (p q : List ℕ) → recent w now (p ++ q) ≡ recent w now p ++ recent w now q
recent-append w now [] q = refl
recent-append w now (t ∷ p) q = ground (arith, recent-append w now p q)

pub length-recent_le : (w now : ℕ) (q : List ℕ) → length (recent w now q) ≤ length q
length-recent_le w now [] = omega arith
length-recent_le w now (t ∷ q) = ground (arith, length-recent_le w now q)
