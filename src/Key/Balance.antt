-- ===== src/Key/Balance.antt =====
-- What `decrypt_key` and `restore_key` of load.c take they give back, on every path.
use suspend.Common.{
  ℕ, zero, suc, ◌+◌, ◌≡◌, ◌⊎◌, inl, inr, refl, Bool, true, false, Bool-cases, List, [], ◌∷◌, ◌==◌,
  length, Option, none, some, arith, subst, ◌≢◌, if◌then◌else◌, take, drop,
}
use suspend.Swap.{Status, ok}
use suspend.Key.{
  Kind, cipher, mpi, sexp, buffer, Event, taken, given, for_image, Gcry, Result, key_size,
  cipher_block, rsa_fields, if_ok, held, and_then, ask, scan_on, field_status, scan_fields,
  release_mpis, main_key, with_plain, with_ciph, with_number, with_private, built, with_second,
  with_passphrase, with_buffers, asked, opened, decrypt_key, with_cipher, after_key, after_rsa,
  from_passphrase, restore_key,
}

abbrev pub index : Kind → ℕ
index cipher = 0
index mpi = 1
index sexp = 2
index buffer = 3

-- How often a resource was taken, and given back.
abbrev pub ins : Kind → List Event → ℕ
ins k [] = 0
ins k (taken j ∷ l) = (if index k == index j then 1 else 0) + ins k l
ins k (given j ∷ l) = ins k l

abbrev pub outs : Kind → List Event → ℕ
outs k [] = 0
outs k (given j ∷ l) = (if index k == index j then 1 else 0) + outs k l
outs k (taken j ∷ l) = outs k l

-- From one log to the next as much of everything is given back as is taken.
abbrev pub IsBalanced : List Event → List Event → Type 0
IsBalanced l l' = (k : Kind) → ins k l' + outs k l ≡ ins k l + outs k l'

held-IsBalanced :
    (j : Kind) (body : List Event → Result) (l : List Event)
    → IsBalanced (taken j ∷ l) (body (taken j ∷ l)).2
    → IsBalanced l (held j body l).2
held-IsBalanced j body l h = λ k. omega (arith, h k)

if_ok-IsBalanced :
    (e : Status) (l : List Event) (r : Result) → IsBalanced l r.2 → IsBalanced l (if_ok e l r).2
if_ok-IsBalanced ok l r h = h
if_ok-IsBalanced _ l r h = λ k. refl

-- Of the numbers `n` more are to be given back.
Owes : ℕ → List Event → List Event → Type 0
Owes n l l' =
    (ins mpi l' + outs mpi l ≡ ins mpi l + (n + outs mpi l'))
    × ((k : Kind) → (k ≡ mpi) ⊎ (ins k l' + outs k l ≡ ins k l + outs k l'))

take_one : (n : ℕ) (l l' : List Event) → Owes n l l' → Owes (n + 1) l (taken mpi ∷ l')
unfolding Owes
take_one n l l' (h, f) = (omega (arith, h), other)
  where
    other :
        (k : Kind)
        → (k ≡ mpi) ⊎ (ins k (taken mpi ∷ l') + outs k l ≡ ins k l + outs k (taken mpi ∷ l'))
    other mpi = inl refl
    other cipher = elim (f cipher) [ inl e ↦ inl e | inr e ↦ inr (omega (arith, e)) ]
    other sexp = elim (f sexp) [ inl e ↦ inl e | inr e ↦ inr (omega (arith, e)) ]
    other buffer = elim (f buffer) [ inl e ↦ inl e | inr e ↦ inr (omega (arith, e)) ]

give_one : (n : ℕ) (l l' : List Event) → Owes (suc n) l l' → Owes n l (given mpi ∷ l')
unfolding Owes
give_one n l l' (h, f) = (omega (arith, h), other)
  where
    other :
        (k : Kind)
        → (k ≡ mpi) ⊎ (ins k (given mpi ∷ l') + outs k l ≡ ins k l + outs k (given mpi ∷ l'))
    other mpi = inl refl
    other cipher = elim (f cipher) [ inl e ↦ inl e | inr e ↦ inr (omega (arith, e)) ]
    other sexp = elim (f sexp) [ inl e ↦ inl e | inr e ↦ inr (omega (arith, e)) ]
    other buffer = elim (f buffer) [ inl e ↦ inl e | inr e ↦ inr (omega (arith, e)) ]

module _ (g : Gcry) (key_test : List ℕ) where
  release_mpis-IsBalanced :
      (n : ℕ) (l l' : List Event) → Owes n l l' → IsBalanced l (release_mpis g key_test n l')
  unfolding Owes release_mpis
  release_mpis-IsBalanced zero l l' (h, f) = all
    where
      all : IsBalanced l l'
      all k = elim (f k) [ inl e ↦ rw e (omega (arith, h)) | inr e ↦ e ]
  release_mpis-IsBalanced (suc n) l l' h =
      release_mpis-IsBalanced n l (given mpi ∷ l') (give_one n l l' h)

  scan_on-Owes :
      (e : Status) (mi : ℕ) (l l' : List Event) (x : Status × ℕ × List Event)
      → Owes mi l l'
      → Owes x.1 l x.2
      → Owes (scan_on g key_test e mi l' x).1 l (scan_on g key_test e mi l' x).2
  scan_on-Owes ok mi l l' x h f = f
  scan_on-Owes _ mi l l' x h f = h

  scan_fields-Owes :
      (n mi : ℕ) (l l' : List Event)
      → Owes mi l l'
      → Owes (scan_fields g key_test n mi l').1 l (scan_fields g key_test n mi l').2
  unfolding scan_fields
  scan_fields-Owes zero mi l l' h = h
  scan_fields-Owes (suc n) mi l l' h =
      scan_on-Owes (field_status g key_test mi) mi l l'
        (scan_fields g key_test n (mi + 1) (taken mpi ∷ l')) h
        (scan_fields-Owes n (mi + 1) l (taken mpi ∷ l') (take_one mi l l' h))

  nothing_owed : (l : List Event) → Owes 0 l l
  unfolding Owes
  nothing_owed l = (omega arith, λ k. inr refl)

  main_key-IsBalanced : (l : List Event) → IsBalanced l (main_key g key_test l).2
  main_key-IsBalanced l = elim (Bool-cases (length g.main_key == key_size + cipher_block)) [
    | inl t ↦ rw t (λ k. refl)
    | inr t ↦ rw t (λ k. refl)
  ]

  with_plain-IsBalanced : (l : List Event) → IsBalanced l (with_plain g key_test l).2
  with_plain-IsBalanced l = λ k. omega (arith, main_key-IsBalanced (given mpi ∷ (taken mpi ∷ l)) k)

  with_ciph-IsBalanced : (l : List Event) → IsBalanced l (with_ciph g key_test l).2
  with_ciph-IsBalanced l =
      if_ok-IsBalanced g.pk_decrypt l (held sexp (with_plain g key_test) l)
        (held-IsBalanced sexp (with_plain g key_test) l (with_plain-IsBalanced (taken sexp ∷ l)))

  with_private-IsBalanced : (l : List Event) → IsBalanced l (with_private g key_test l).2
  with_private-IsBalanced l =
      let l' = given mpi ∷ (taken mpi ∷ l) in
      let h =
        if_ok-IsBalanced g.build_cipher l' (held sexp (with_ciph g key_test) l') (
          held-IsBalanced sexp (with_ciph g key_test) l'
            (with_ciph-IsBalanced (taken sexp ∷ l'))) in
      if_ok-IsBalanced g.scan_key l (with_number g key_test l) (λ k. omega (arith, h k))

  built-IsBalanced :
      (l : List Event) → IsBalanced l (built g key_test (scan_fields g key_test rsa_fields 0 l)).2
  built-IsBalanced l =
      let x = scan_fields g key_test rsa_fields 0 l in
      let l' = release_mpis g key_test x.1 x.2 in
      let a =
        release_mpis-IsBalanced x.1 l x.2 (scan_fields-Owes rsa_fields 0 l l (nothing_owed l)) in
      let b =
        if_ok-IsBalanced (and_then x.0 g.build_private) l' (held sexp (with_private g key_test) l')
          (held-IsBalanced sexp (with_private g key_test) l'
            (with_private-IsBalanced (taken sexp ∷ l'))) in
      λ k. omega (arith, a k, b k)

  with_second-IsBalanced :
      (p : List ℕ) (l : List Event) → IsBalanced l (with_second g key_test p l).2
  with_second-IsBalanced p l =
      if_ok-IsBalanced _ l (built g key_test (scan_fields g key_test rsa_fields 0 l))
        (built-IsBalanced l)

  -- The first cipher is given back here.
  with_passphrase-IsBalanced :
      (x : Status × List ℕ) (l : List Event)
      → IsBalanced (given cipher ∷ l) (with_passphrase g key_test x l).2
  with_passphrase-IsBalanced (e, p) l =
      if_ok-IsBalanced _ (given cipher ∷ l)
        (held cipher (with_second g key_test p) (given cipher ∷ l))
        (held-IsBalanced cipher (with_second g key_test p) (given cipher ∷ l)
          (with_second-IsBalanced p (taken cipher ∷ (given cipher ∷ l))))

  with_buffers-IsBalanced :
      (x : Status × List ℕ) (l : List Event)
      → IsBalanced l (with_buffers g key_test x (taken cipher ∷ l)).2
  with_buffers-IsBalanced x l =
      let m = taken buffer ∷ (taken buffer ∷ (taken buffer ∷ (taken cipher ∷ l))) in
      λ k. omega (arith, with_passphrase-IsBalanced x m k)

  abbrev IsBalancedIf : List Event → Option Result → Type 0
  IsBalancedIf l none = Unit {0}
  IsBalancedIf l (some r) = IsBalanced l r.2

  asked-IsBalanced :
      (o : Option (Status × List ℕ)) (l : List Event) (r : Result)
      → asked g key_test o (taken cipher ∷ l) ≡ some r
      → IsBalanced l r.2
  asked-IsBalanced none l r h = absurd (cc)
  asked-IsBalanced (some x) l r h = subst (IsBalancedIf l) h (with_buffers-IsBalanced x l)

  opened-IsBalanced :
      (e : Status) (typed : List (List ℕ)) (l : List Event) (r : Result)
      → opened g key_test e typed l ≡ some r
      → IsBalanced l r.2
  opened-IsBalanced ok typed l r h = asked-IsBalanced (ask g key_test 0 typed) l r h
  opened-IsBalanced _ typed l r h = subst (IsBalancedIf l) h (λ k. refl)

  -- Whatever libgcrypt answers and wherever `decrypt_key` fails, it has closed every cipher, released
  -- every number and every expression, and freed every buffer that it took.
  pub decrypt_key-IsBalanced :
      (typed : List (List ℕ)) (l : List Event) {r : Result}
      → decrypt_key g key_test typed l ≡ some r
      → IsBalanced l r.2
  unfolding decrypt_key
  decrypt_key-IsBalanced typed l {r} h = opened-IsBalanced (g.cipher_open 0) typed l r h

  -- On success the cipher of the image is open and nothing else is left; otherwise nothing is.
  abbrev pub IsRestored : List Event → Status × List Event → Type 0
  IsRestored l x =
      ((x.0 ≡ ok) × IsBalanced (taken cipher ∷ l) x.1) ⊎ ((x.0 ≢ ok) × IsBalanced l x.1)

  with_cipher-IsRestored :
      (o e : Status) (l l' : List Event)
      → IsBalanced l l'
      → IsRestored l (with_cipher g key_test o e l')
  with_cipher-IsRestored ok ok l l' h = inl (refl, λ k. omega (arith, h k))
  with_cipher-IsRestored ok _ l l' h = inr (λ q. cc, λ k. omega (arith, h k))
  with_cipher-IsRestored _ e l l' h = inr (λ q. cc, h)

  after_key-IsRestored :
      (r : Result) (l : List Event) → IsBalanced l r.2 → IsRestored l (after_key g key_test r)
  after_key-IsRestored (ok, key, l') l h =
      with_cipher-IsRestored g.image_open
        (and_then (g.setkey for_image (take key_size key)) (g.setiv for_image (drop key_size key)))
        l l' h
  after_key-IsRestored (_, key, l') l h = inr (λ q. cc, h)

  abbrev IsRestoredIf : List Event → Option (Status × List Event) → Type 0
  IsRestoredIf l none = Unit {0}
  IsRestoredIf l (some x) = IsRestored l x

  rsa-IsRestoredIf :
      (l : List Event) (o : Option Result)
      → IsBalancedIf l o
      → IsRestoredIf l (after_rsa g key_test o)
  rsa-IsRestoredIf l none h = tt
  rsa-IsRestoredIf l (some r) h = after_key-IsRestored r l h

  typed-IsRestoredIf :
      (salt : List ℕ) (typed : List (List ℕ)) (l : List Event)
      → IsRestoredIf l (from_passphrase g key_test salt typed l)
  typed-IsRestoredIf salt [] l = tt
  typed-IsRestoredIf salt (p ∷ ps) l = with_cipher-IsRestored g.image_open _ l l (λ k. refl)

  -- `restore_key` reports success just when it leaves the cipher of the image open, and on every path
  -- all else that it or `decrypt_key` took is given back.
  pub restore_key-IsRestored :
      (use_rsa : Bool) (salt : List ℕ) (typed : List (List ℕ)) (l : List Event)
      {x : Status × List Event}
      → restore_key g key_test use_rsa salt typed l ≡ some x
      → IsRestored l x
  unfolding restore_key
  restore_key-IsRestored true salt typed l h = subst (IsRestoredIf l) h (
      rsa-IsRestoredIf l (decrypt_key g key_test typed l)
        (balanced (decrypt_key g key_test typed l) refl))
    where
      balanced : (o : Option Result) → decrypt_key g key_test typed l ≡ o → IsBalancedIf l o
      balanced none e = tt
      balanced (some r) e = decrypt_key-IsBalanced typed l e
  restore_key-IsRestored false salt typed l h =
      subst (IsRestoredIf l) h (typed-IsRestoredIf salt typed l)
