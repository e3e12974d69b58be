-- ===== src/Threads/Ring.antt =====
-- What a ring of `n` places holds from one index on.
use suspend.Common.{
  ℕ, zero, suc, ◌+◌, ◌%◌, ◌<◌, ◌≡◌, ◌≢◌, refl, true, false, List, [], ◌∷◌, ◌++◌, ◌==◌, arith, ap,
  ◌∙◌, sym, dec_lt,
}
use native.Mathlib.Nat.{mod-add-mod, mod-eq_of_lt, mod-lt}
use suspend.Threads.{inc, update}

module _ {ℓ} {A : Type ℓ} (n : ℕ) where
  -- `k` places from `e` on.
  abbrev pub contents : (ℕ → A) → ℕ → ℕ → List A
  contents f e zero = []
  contents f e (suc k) = f e ∷ contents f (inc n e) k

  -- Those behind the first.
  abbrev pub behind : (ℕ → A) → ℕ → ℕ → List A
  behind f e zero = []
  behind f e (suc k) = contents f (inc n e) k

pub inc_at : (n e j : ℕ) → (inc n e + j) % n ≡ (e + suc j) % n
inc_at n e j = mod-add-mod (e + 1) n j ∙ ap (λ x. x % n) (omega arith)

pub at_inc : (n e j : ℕ) → inc n ((e + j) % n) ≡ (e + suc j) % n
at_inc n e j = mod-add-mod (e + j) n 1 ∙ ap (λ x. x % n) (omega arith)

pub at_ne : (n e j : ℕ) → e < n → 0 < j → j < n → (e + j) % n ≢ e
at_ne n e j h g l = grind arith

-- Two places less than `n` apart are different.
places_ne : (n e i k : ℕ) → e < n → i < k → k < n → (e + i) % n ≢ (e + k) % n
places_ne n e i k h g l = grind arith

once_round : (n e : ℕ) → e < n → (e + n) % n ≡ e
once_round n e h = grind arith

-- A ring of `j` places, not full, has its end before its start.
pub at_full : (n e j : ℕ) → e < n → j < n → inc n ((e + j) % n) ≢ e → suc j < n
at_full n e j h l ne = elim (dec_lt (suc j) n) [
  | yes p ↦ p
  | no p ↦
      let full : suc j ≡ n = omega (arith, p, l) in
      absurd (ne (at_inc n e j ∙ ap (λ x. (e + x) % n) full ∙ once_round n e h))
]

module _ {ℓ} {A : Type ℓ} (n : ℕ) where
  pub contents-snoc :
      (f : ℕ → A) (e k : ℕ)
      → e < n
      → contents n f e (suc k) ≡ contents n f e k ++ (f ((e + k) % n) ∷ [])
  contents-snoc f e zero h =
      ap (λ x. f x ∷ []) (sym (mod-eq_of_lt h) ∙ ap (λ x. x % n) (omega arith))
  contents-snoc f e (suc k) h =
      ap (λ x. f e ∷ x)
        (contents-snoc f (inc n e) k (mod-lt (e + 1) (omega (arith, h)))
          ∙ ap (λ x. contents n f (inc n e) k ++ (f x ∷ [])) (inc_at n e k))

  pub contents-update :
      (f : ℕ → A) (x : ℕ) (a : A) (e k : ℕ)
      → e < n
      → ((i : ℕ) → i < k → (e + i) % n ≢ x)
      → contents n (update f x a) e k ≡ contents n f e k
  contents-update f x a e zero h ne = refl
  contents-update f x a e (suc k) h ne =
      let first : e ≢ x =
        λ q. ne 0 (omega arith) (ap (λ y. y % n) (omega arith) ∙ mod-eq_of_lt h ∙ q) in
      let t : (x == e) ≡ false = ground (arith, first) in
      rw t (
        ap (λ y. f e ∷ y)
          (contents-update f x a (inc n e) k (mod-lt (e + 1) (omega (arith, h)))
            (λ i l q. ne (suc i) (omega (arith, l)) (sym (inc_at n e i) ∙ q))))

  -- A write behind the end leaves the contents alone.
  pub contents-update_end :
      (f : ℕ → A) (a : A) (e k : ℕ)
      → e < n
      → k < n
      → contents n (update f ((e + k) % n) a) e k ≡ contents n f e k
  contents-update_end f a e k h l =
      contents-update f ((e + k) % n) a e k h (λ i g. places_ne n e i k h g l)

  -- So does it to the contents behind the first place.
  pub contents-update_rest :
      (f : ℕ → A) (a : A) (e k : ℕ)
      → e < n
      → suc k < n
      → contents n (update f ((e + suc k) % n) a) (inc n e) k ≡ contents n f (inc n e) k
  contents-update_rest f a e k h l =
      contents-update f ((e + suc k) % n) a (inc n e) k (mod-lt (e + 1) (omega (arith, h)))
        (λ i g q. places_ne n e (suc i) (suc k) h (omega (arith, g)) l (sym (inc_at n e i) ∙ q))

-- A write to the buffer at the end leaves those from `e` on alone.
pub behind-update_end :
    {A : Type 0} (n : ℕ) (f : ℕ → A) (a : A) (e j : ℕ)
    → e < n
    → j < n
    → behind n (update f ((e + j) % n) a) e j ≡ behind n f e j
behind-update_end n f a e zero h l = refl
behind-update_end n f a e (suc j) h l = contents-update_rest n f a e j h l

pub update_self : {A : Type 0} (f : ℕ → A) (i : ℕ) (a : A) → update f i a i ≡ a
update_self f i a = let t : (i == i) ≡ true = ground arith in rw t refl

-- The ends of an empty ring have met.
pub ring_empty : (n s e j : ℕ) → (s ≡ (e + j) % n) × (j < n) × (e < n) → e ≡ s → j ≡ 0
ring_empty n s e zero (p, l, h) q = refl
ring_empty n s e (suc j) (p, l, h) q = absurd (at_ne n e (suc j) h (omega arith) l (sym p ∙ sym q))

pub ring_apart : (n s e j : ℕ) → (s ≡ (e + j) % n) × (j < n) × (e < n) → 0 < j → e ≢ s
ring_apart n s e j (p, l, h) g q = at_ne n e j h g l (sym p ∙ sym q)

pub ring_met : (n s e j : ℕ) → (s ≡ (e + j) % n) × (j < n) × (e < n) → j ≡ 0 → s ≡ e
ring_met n s e j (p, l, h) q =
    p ∙ ap (λ x. (e + x) % n) q ∙ ap (λ x. x % n) (omega arith) ∙ mod-eq_of_lt h
