-- ===== src/Memory/Nest.antt =====
-- Areas are given back in the opposite order: the pool then has the areas in use that it had.
use suspend.Common.{
  ℕ, ◌+◌, ◌≤◌, ◌<◌, ◌≡◌, ◌↔◌, refl, inl, inr, Bool, true, false, Option, arith, sym, ap, ◌∙◌, subst,
}
use suspend.Pool.{Pool, Slot, slot, freemem}
use suspend.Pool.Bounds.{IsValid, IsAllocated}
use suspend.Pool.Free.{IsLive, IsFreed, freemem-IsFreed}
use suspend.Memory.{free, free_if, is_given, getmem_if}
use suspend.Memory.Enough.{Outcome}

-- The same areas are in use, at the same places.
pub record IsSame (p q : Pool) : Type 0 where
  pub valid : IsValid q
  pub live : (i : ℕ) → IsLive q i ↔ IsLive p i
  pub slots : (i : ℕ) → IsLive p i → slot q.slots i ≡ slot p.slots i

pub same : (p : Pool) → IsValid p → IsSame p p
same p v = record { valid = v; live = λ i. (λ h. h, λ h. h); slots = λ i h. refl }

pub freemem-IsSame :
    {p : Pool} (size : ℕ) {a : ℕ} {q q' : Pool}
    → 0 < size
    → IsAllocated p size a q
    → IsSame q q'
    → IsSame p (freemem q' a)
freemem-IsSame {p} size {a} {q} {q'} pos g m =
    let here : IsLive q p.cur =
      (omega (arith, g.count), subst (λ (x : Slot). 0 < x.size) (sym g.entry) pos) in
    let there = (m.live p.cur).1 here in
    let at : (slot q'.slots p.cur).addr ≡ a = ap Slot.addr (m.slots p.cur here ∙ g.entry) in
    let f : IsFreed q' p.cur (freemem q' a) =
      subst (λ y. IsFreed q' p.cur (freemem q' y)) at (freemem-IsFreed p.cur m.valid there.0) in
    let up : (i : ℕ) → IsLive p i → IsLive q i = λ i l.
      (omega (arith, g.count, l.0), subst (λ (x : Slot). 0 < x.size) (sym (g.others i l.0)) l.1) in
    record {
      valid = f.valid;
      live = λ i. (
        λ l.
            let (l', ne) = (f.live i).0 l in
            let (lt, s) = (m.live i).0 l' in
            let below : i < p.cur = omega (arith, lt, g.count, ne) in
            (below, subst (λ (x : Slot). 0 < x.size) (g.others i below) s),
        λ l. (f.live i).1 ((m.live i).1 (up i l), λ e. absurd (omega (arith, e, l.0))),
      );
      slots = λ i l.
          f.others i (λ e. absurd (omega (arith, e, l.0))) ∙ m.slots i (up i l) ∙ g.others i l.0;
    }

pub free_if-IsSame :
    (c : Bool) {p : Pool} (size : ℕ) {x : Option ℕ × Pool} {q' : Pool}
    → (c ≡ true → 0 < size)
    → Outcome c p size x
    → IsSame x.1 q'
    → IsSame p (free_if c x.0 q')
free_if-IsSame true {p} size {x} {q'} pos (inl (_, (a, e, g))) m =
    subst (λ y. IsSame p (free y q')) (sym e) (freemem-IsSame size (pos refl) g m)
free_if-IsSame false size pos (inl (e, _)) m = absurd (cc)
free_if-IsSame true size pos (inr (e, _)) m = absurd (cc)
free_if-IsSame false {p} size {x} {q'} pos (inr (_, e)) m = subst (λ y. IsSame y q') e m

-- The pointer tells whether there is a buffer.
pub is_given_if :
    (c : Bool) (p : Pool) (size : ℕ)
    → Outcome c p size (getmem_if c p size)
    → is_given (getmem_if c p size).0 ≡ c
is_given_if true p size (inl (_, (a, e, g))) = ap is_given e
is_given_if true p size (inr (e, _)) = absurd (cc)
is_given_if false p size h = refl

-- An area in use.
pub record HasArea (p : Pool) (a size : ℕ) : Type 0 where
  pub index : ℕ
  pub below : index < p.cur
  pub found : slot p.slots index ≡ record { addr = a; size = size }

pub IsAllocated-HasArea :
    {p : Pool} {size a : ℕ} {q : Pool} → IsAllocated p size a q → HasArea q a size
IsAllocated-HasArea {p} g = record {
  index = p.cur;
  below = omega (arith, g.count);
  found = g.entry;
}

-- It stays when another area is taken.
pub Outcome-HasArea :
    (c : Bool) {p : Pool} {size : ℕ} {x : Option ℕ × Pool} {a n : ℕ}
    → Outcome c p size x
    → HasArea p a n
    → HasArea x.1 a n
Outcome-HasArea c (inl (_, (b, _, g))) h = record {
  index = h.index;
  below = omega (arith, g.count, h.below);
  found = g.others h.index h.below ∙ h.found;
}
Outcome-HasArea c {a} {n} (inr (_, e)) h = subst (λ y. HasArea y a n) (sym e) h

-- A new area starts behind it.
pub HasArea-le :
    {p : Pool} {size b : ℕ} {q : Pool} {a n : ℕ}
    → IsAllocated p size b q
    → HasArea p a n
    → a + n ≤ b
HasArea-le {b} g h = subst (λ (x : Slot). x.addr + x.size ≤ b) h.found (g.above h.index h.below)
