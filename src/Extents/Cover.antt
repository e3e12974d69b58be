-- ===== src/Extents/Cover.antt =====
-- The bytes of swap that the extents of suspend.c describe. How they change
-- with an entry.
use suspend.Common.{
  ℕ, zero, suc, ◌+◌, ◌≤◌, ◌<◌, ◌≡◌, refl, Bool, false, ◌&&◌, ◌||◌, List, [], ◌∷◌, ◌++◌, arith, ltb,
  leb, length, set, ap,
}
use suspend.Extents.{Extent, extent, remove, insert}

abbrev pub in_extent : Extent → ℕ → Bool
in_extent e y = leb e.start y && ltb y e.end

abbrev pub in_page : ℕ → ℕ → ℕ → Bool
in_page page offset y = leb offset y && ltb y (offset + page)

abbrev pub covers : List Extent → ℕ → Bool
covers [] y = false
covers (e ∷ es) y = in_extent e y || covers es y

pub covers-remove :
    (es : List Extent) (k y : ℕ)
    → k < length es
    → covers es y ≡ (in_extent (extent es k) y || covers (remove es k) y)
covers-remove [] k y h = absurd (omega arith)
covers-remove (e ∷ es) zero y h = refl
covers-remove (e ∷ es) (suc k) y h = ground (arith, covers-remove es k y)

pub covers-set :
    (es : List Extent) (k y : ℕ) (v : Extent)
    → k < length es
    → covers (set es k v) y ≡ (in_extent v y || covers (remove es k) y)
covers-set [] k y v h = absurd (omega arith)
covers-set (e ∷ es) zero y v h = refl
covers-set (e ∷ es) (suc k) y v h = ground (arith, covers-set es k y v)

pub covers-insert :
    (es : List Extent) (k y : ℕ) (v : Extent)
    → covers (insert es k v) y ≡ (in_extent v y || covers es y)
covers-insert es zero y v = refl
covers-insert [] (suc k) y v = refl
covers-insert (e ∷ es) (suc k) y v = ground (arith, covers-insert es k y v)

pub covers-append :
    (es fs : List Extent) (y : ℕ) → covers (es ++ fs) y ≡ (covers es y || covers fs y)
covers-append [] fs y = refl
covers-append (e ∷ es) fs y = ground (arith, covers-append es fs y)

pub get-remove_lt : (es : List Extent) (k m : ℕ) → m < k → extent (remove es k) m ≡ extent es m
get-remove_lt [] k m h = refl
get-remove_lt (e ∷ es) zero m h = absurd (omega arith)
get-remove_lt (e ∷ es) (suc k) zero h = refl
get-remove_lt (e ∷ es) (suc k) (suc m) h = get-remove_lt es k m (omega arith)

pub get-remove_ge :
    (es : List Extent) (k m : ℕ) → k ≤ m → extent (remove es k) m ≡ extent es (suc m)
get-remove_ge [] k m h = refl
get-remove_ge (e ∷ es) zero m h = refl
get-remove_ge (e ∷ es) (suc k) zero h = absurd (omega arith)
get-remove_ge (e ∷ es) (suc k) (suc m) h = get-remove_ge es k m (omega arith)

pub length-remove :
    (es : List Extent) (k : ℕ) → k < length es → suc (length (remove es k)) ≡ length es
length-remove [] k h = absurd (omega arith)
length-remove (e ∷ es) zero h = refl
length-remove (e ∷ es) (suc k) h = ap suc (length-remove es k (omega arith))

pub length-insert :
    (es : List Extent) (k : ℕ) (v : Extent) → length (insert es k v) ≡ suc (length es)
length-insert es zero v = refl
length-insert [] (suc k) v = refl
length-insert (e ∷ es) (suc k) v = ap suc (length-insert es k v)

-- Both ways of merging leave the same list.
pub remove-set :
    (es : List Extent) (j : ℕ) (v : Extent)
    → remove (set es j v) (suc j) ≡ set (remove es (suc j)) j v
remove-set [] j v = refl
remove-set (e ∷ []) zero v = refl
remove-set (e ∷ f ∷ es) zero v = refl
remove-set (e ∷ es) (suc j) v = ap (λ l. e ∷ l) (remove-set es j v)

pub remove-set_self : (es : List Extent) (k : ℕ) (v : Extent) → remove (set es k v) k ≡ remove es k
remove-set_self [] k v = refl
remove-set_self (e ∷ es) zero v = refl
remove-set_self (e ∷ es) (suc k) v = ap (λ l. e ∷ l) (remove-set_self es k v)
