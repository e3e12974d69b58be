-- ===== src/Threads/Progress.antt =====
-- The threads of suspend.c do not wait for each other: while `wait_for_finish` waits and there is no
-- error, the move thread or the save thread can go on.
use suspend.Common.{
  ℕ, suc, ◌+◌, ◌<◌, ◌%◌, ◌≡◌, ◌≢◌, refl, ◌⊎◌, inl, inr, Bool, true, Bool-cases, List, [], ◌∷◌,
  arith, sym, ◌∙◌, ap, dec_lt,
}
use suspend.Swap.{Status, ok, einval, eio, enospc, efault, eintr, enodata, enodev, enomem, gcry}
use suspend.Threads.{
  Shared, filling, Mover, idle, moving, putting, gone, Saver, waiting, saving, written_out, ended,
  System, MoverMove, SaverMove, take, encrypt_page, encrypt_fails, put, save_page_self,
  save_self_fails, finish, take_page, write, write_fails, advance, started, Reach, IsFinished, inc,
  CanGoOn,
}
use suspend.Threads.Ring.{at_inc, at_ne, ring_met, ring_apart}
use suspend.Threads.Invariant.{MoverHolds, SaverHolds, Facts}
use suspend.Threads.Finish.{Reach-Facts}

Status-cases : (e : Status) → (e ≡ ok) ⊎ (e ≢ ok)
Status-cases ok = inl refl
Status-cases einval = inr (λ h. cc)
Status-cases eio = inr (λ h. cc)
Status-cases enospc = inr (λ h. cc)
Status-cases efault = inr (λ h. cc)
Status-cases eintr = inr (λ h. cc)
Status-cases enodata = inr (λ h. cc)
Status-cases enodev = inr (λ h. cc)
Status-cases enomem = inr (λ h. cc)
Status-cases (gcry n) = inr (λ h. cc)

module _ (C W Page : Type 0) (n b : ℕ) (do_encrypt : Bool) (encrypt : C → Page → Status × Page × C)
    (save_page : W → Page → Status × W) where
  -- The save thread goes on when the encrypt buffer is not empty.
  saver_step :
      (m : Shared C W Page) (saver : Saver) (k : ℕ)
      → m.save_ret ≡ ok
      → do_encrypt ≡ true
      → (m.save_start ≡ (m.save_end + k) % b) × (k < b) × (m.save_end < b)
      → SaverHolds saver k
      → 0 < k
      → (m' : Shared C W Page) × (p : Saver) × SaverMove C W Page n b do_encrypt encrypt save_page m
          saver m' p
  saver_step m waiting k o t r h g =
      (_, _, take_page t (ring_apart b m.save_start m.save_end k r g) o)
  saver_step m saving k o t r h g =
      let x = save_page m.writer (m.encrypt_buf m.save_end) in
      elim (Status-cases x.0) [
        | inl e ↦ (_, _, write {w = x.1} (λ i. (e i, x.1)))
        | inr ne ↦ (_, _, write_fails {w = x.1} {e = x.0} refl ne)
      ]
  saver_step m written_out k o t r h g = (_, _, advance)
  saver_step m ended k o t r h g = absurd h

  -- Within a write buffer the move thread goes on by itself.
  moving_step :
      (m : Shared C W Page) (ps : List Page)
      → m.save_ret ≡ ok
      → (m' : Shared C W Page) × (p : Mover Page) × MoverMove C W Page n b do_encrypt encrypt
          save_page m
          (moving ps)
          m'
          p
  moving_step m [] o = (_, _, finish o)
  moving_step m (p ∷ ps) o = elim (Bool-cases do_encrypt) [
    | inl t ↦
        let x = encrypt m.cipher p in
        elim (Status-cases x.0) [
          | inl e ↦ (_, _, encrypt_page {q = x.1} {c = x.2} t (λ i. (e i, x.1, x.2)))
          | inr ne ↦ (_, _, encrypt_fails {q = x.1} {c = x.2} {e = x.0} t refl ne)
        ]
    | inr t ↦
        let x = save_page m.writer p in
        elim (Status-cases x.0) [
          | inl e ↦ (_, _, save_page_self {w = x.1} t (λ i. (e i, x.1)))
          | inr ne ↦ (_, _, save_self_fails {w = x.1} {e = x.0} t refl ne)
        ]
  ]

  -- The place behind the last page is free when the encrypt buffer is empty.
  room_when_empty :
      (m : Shared C W Page) (k : ℕ)
      → (m.save_start ≡ (m.save_end + k) % b) × (k < b) × (m.save_end < b)
      → k ≡ 0
      → 1 < b
      → inc b m.save_start ≢ m.save_end
  room_when_empty m k (p, l, h) e g q =
      at_ne b m.save_end 1 h (omega arith) g
        (sym (ap (inc b) p ∙ at_inc b m.save_end k ∙ ap (λ x. (m.save_end + suc x) % b) e) ∙ q)

  -- With nothing to save the move thread goes on, or there is nothing to move.
  mover_step :
      (m : Shared C W Page) (mover : Mover Page) (j k : ℕ)
      → m.save_ret ≡ ok
      → (m.move_start ≡ (m.move_end + j) % n) × (j < n) × (m.move_end < n)
      → (m.save_start ≡ (m.save_end + k) % b) × (k < b) × (m.save_end < b)
      → MoverHolds do_encrypt mover j
      → k ≡ 0
      → 1 < b
      → (j ≡ 0)
        ⊎ ((m' : Shared C W Page) × (p : Mover Page) × MoverMove C W Page n b do_encrypt encrypt
              save_page m mover m' p)
  mover_step m idle j k o r r' h e g = elim (dec_lt 0 j) [
    | yes p ↦ inr (_, _, take (ring_apart n m.move_start m.move_end j r p) o)
    | no p ↦ inl (omega (arith, p))
  ]
  mover_step m (moving ps) j k o r r' h e g = inr (moving_step m ps o)
  mover_step m (putting ps) j k o r r' h e g = inr (_, _, put (inl (room_when_empty m k r' e g)))
  mover_step m gone j k o r r' h e g = absurd h

  free_or_done :
      (c₀ : C) (w₀ : W) (s : System C W Page n b do_encrypt encrypt save_page)
      → 1 < b
      → s.main ≡ filling
      → Facts C W Page n b do_encrypt encrypt save_page c₀ w₀ s.mem s.main s.mover s.saver
      → IsFinished C W Page n b do_encrypt encrypt save_page s
        ⊎ CanGoOn C W Page n b do_encrypt encrypt save_page s
  free_or_done c₀ w₀ s g at_rest f = elim (dec_lt 0 f.k) [
    | yes some ↦ elim (Bool-cases do_encrypt) [
      | inl t ↦
          inr (inr (saver_step s.mem s.saver f.k f.ok_so_far t f.save_ring f.saver_holds some))
      | inr t ↦ absurd (omega (arith, some, f.direct t))
    ]
    | no none_left ↦
        let k0 : f.k ≡ 0 = omega (arith, none_left) in
        elim (mover_step s.mem s.mover f.j f.k f.ok_so_far f.move_ring f.save_ring f.mover_holds k0
          g) [
            | inl j0 ↦ inl (
              sym (ring_met b s.mem.save_start s.mem.save_end f.k f.save_ring k0),
              ring_met n s.mem.move_start s.mem.move_end f.j f.move_ring j0,
              f.ok_so_far,
              at_rest,
            )
            | inr x ↦ inr (inl x)
          ]
  ]

  -- As long as there is no error and the main thread is not done waiting for the threads to finish,
  -- the move thread or the save thread has a step: they do not block each other.
  pub Reach-CanGoOn :
      (e₀ : Status) (wb : ℕ → List Page) (eb : ℕ → Page) (c₀ : C) (w₀ : W)
      → 0 < n
      → 1 < b
      → (s : System C W Page n b do_encrypt encrypt save_page)
      → Reach C W Page n b do_encrypt encrypt save_page
          (started C W Page n b do_encrypt encrypt save_page e₀ wb eb c₀ w₀)
          s
      → s.mem.save_ret ≡ ok
      → s.main ≡ filling
      → IsFinished C W Page n b do_encrypt encrypt save_page s
        ⊎ CanGoOn C W Page n b do_encrypt encrypt save_page s
  Reach-CanGoOn e₀ wb eb c₀ w₀ n_pos b_two s r o at_rest = free_or_done c₀ w₀ s b_two at_rest (
      Reach-Facts C W Page n b do_encrypt encrypt save_page e₀ wb eb c₀ w₀ n_pos (omega arith) s r
        o)
