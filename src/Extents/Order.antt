-- ===== src/Extents/Order.antt =====
-- Extents of suspend.c in order: each is not empty, and each ends before the next begins, with room
-- between them (neighbours are merged).
use suspend.Common.{ℕ, zero, suc, ◌≤◌, ◌<◌, List, [], ◌∷◌, arith, length, set}
use suspend.Extents.{Extent, extent, remove, insert}

-- `b` lies strictly before all of them.
abbrev pub Before : ℕ → List Extent → Type 0
Before b [] = Unit
Before b (e ∷ es) = (b < e.start) × Before b es

abbrev pub IsSorted : List Extent → Type 0
IsSorted [] = Unit
IsSorted (e ∷ es) = (e.start < e.end) × Before e.end es × IsSorted es

pub Before-mono : (a b : ℕ) (es : List Extent) → a ≤ b → Before b es → Before a es
Before-mono a b [] h s = tt
Before-mono a b (e ∷ es) h s = (omega arith, Before-mono a b es h s.1)

pub Before-get :
    (b : ℕ) (es : List Extent) (k : ℕ) → Before b es → k < length es → b < (extent es k).start
Before-get b [] k s h = absurd (omega arith)
Before-get b (e ∷ es) zero s h = s.0
Before-get b (e ∷ es) (suc k) s h = Before-get b es k s.1 (omega arith)

pub start-lt-end :
    (es : List Extent) (k : ℕ)
    → IsSorted es
    → k < length es
    → (extent es k).start < (extent es k).end
start-lt-end [] k s h = absurd (omega arith)
start-lt-end (e ∷ es) zero s h = s.0
start-lt-end (e ∷ es) (suc k) s h = start-lt-end es k s.2 (omega arith)

pub end-lt-start :
    (es : List Extent) (j k : ℕ)
    → IsSorted es
    → j < k
    → k < length es
    → (extent es j).end < (extent es k).start
end-lt-start [] j k s lt h = absurd (omega arith)
end-lt-start (e ∷ es) zero (suc k) s lt h = Before-get e.end es k s.1 (omega arith)
end-lt-start (e ∷ es) (suc j) (suc k) s lt h = end-lt-start es j k s.2 (omega arith) (omega arith)
end-lt-start (e ∷ es) j zero s lt h = absurd (omega arith)

Before-set :
    (b : ℕ) (es : List Extent) (k : ℕ) (v : Extent)
    → Before b es
    → b < v.start
    → Before b (set es k v)
Before-set b [] k v s h = tt
Before-set b (e ∷ es) zero v s h = (h, s.1)
Before-set b (e ∷ es) (suc k) v s h = (s.0, Before-set b es k v s.1 h)

Before-insert :
    (b : ℕ) (es : List Extent) (k : ℕ) (v : Extent)
    → Before b es
    → b < v.start
    → Before b (insert es k v)
Before-insert b es zero v s h = (h, s)
Before-insert b [] (suc k) v s h = (h, tt)
Before-insert b (e ∷ es) (suc k) v s h = (s.0, Before-insert b es k v s.1 h)

Before-remove : (b : ℕ) (es : List Extent) (k : ℕ) → Before b es → Before b (remove es k)
Before-remove b [] k s = tt
Before-remove b (e ∷ es) zero s = s.1
Before-remove b (e ∷ es) (suc k) s = (s.0, Before-remove b es k s.1)

-- All from entry `k` on lie strictly behind `b`.
Before-of_get :
    (b : ℕ) (es : List Extent) → ((m : ℕ) → m < length es → b < (extent es m).start) → Before b es
Before-of_get b [] f = tt
Before-of_get b (e ∷ es) f =
    (f 0 (omega arith), Before-of_get b es (λ m h. f (suc m) (omega (arith, h))))

-- A new value between its neighbours keeps the order.
pub IsSorted-set :
    (es : List Extent) (k : ℕ) (v : Extent)
    → IsSorted es
    → v.start < v.end
    → ((m : ℕ) → m < k → m < length es → (extent es m).end < v.start)
    → ((m : ℕ) → k < m → m < length es → v.end < (extent es m).start)
    → IsSorted (set es k v)
IsSorted-set [] k v s p lo hi = tt
IsSorted-set (e ∷ es) zero v s p lo hi =
    (p, Before-of_get v.end es (λ m h. hi (suc m) (omega arith) (omega arith)), s.2)
IsSorted-set (e ∷ es) (suc k) v s p lo hi = (
  s.0,
  Before-set e.end es k v s.1 (lo 0 (omega arith) (omega arith)),
  IsSorted-set es k v s.2 p (λ m h g. lo (suc m) (omega arith) (omega arith))
      (λ m h g. hi (suc m) (omega arith) (omega arith)),
)

pub IsSorted-insert :
    (es : List Extent) (k : ℕ) (v : Extent)
    → IsSorted es
    → v.start < v.end
    → ((m : ℕ) → m < k → m < length es → (extent es m).end < v.start)
    → ((m : ℕ) → k ≤ m → m < length es → v.end < (extent es m).start)
    → IsSorted (insert es k v)
IsSorted-insert es zero v s p lo hi = (p, Before-of_get v.end es (λ m h. hi m (omega arith) h), s)
IsSorted-insert [] (suc k) v s p lo hi = (p, tt, tt)
IsSorted-insert (e ∷ es) (suc k) v s p lo hi = (
  s.0,
  Before-insert e.end es k v s.1 (lo 0 (omega arith) (omega arith)),
  IsSorted-insert es k v s.2 p (λ m h g. lo (suc m) (omega arith) (omega arith))
      (λ m h g. hi (suc m) (omega arith) (omega arith)),
)

pub IsSorted-remove : (es : List Extent) (k : ℕ) → IsSorted es → IsSorted (remove es k)
IsSorted-remove [] k s = tt
IsSorted-remove (e ∷ es) zero s = s.2
IsSorted-remove (e ∷ es) (suc k) s = (s.0, Before-remove e.end es k s.1, IsSorted-remove es k s.2)
