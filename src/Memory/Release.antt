-- ===== src/Memory/Release.antt =====
-- The swap writer's buffers from start-up to the end: `init_memalloc`, `init_swap_writer` and
-- `free_swap_writer`.
use suspend.Common.{
  ℕ, ◌<◌, ◌≡◌, refl, inl, inr, Bool, Bool-cases, true, false, not, ◌||◌, Option, none, some, arith,
  sym, ap, ap₂, ◌∙◌,
}
use suspend.Pool.{Pool}
use suspend.Pool.Bounds.{IsAllocated}
use suspend.Memory.{
  Setup, buffer_size, Buffers, take_buffers, is_given, is_same, free_swap_writer, encrypt_buf_size,
}
use suspend.Memory.Enough.{Outcome, AreTaken, write_size, with_buffer, with_write}
use suspend.Memory.Nest.{
  IsSame, same, free_if-IsSame, is_given_if, IsAllocated-HasArea, Outcome-HasArea, HasArea-le,
}

-- Every buffer that the settings ask for is there.
pub record AreGiven (s : Setup) (h : Buffers) : Type 0 where
  pub extents : is_given h.extents ≡ true
  pub buffer : is_given h.buffer ≡ true
  pub encrypt_buffer : s.do_encrypt ≡ true → is_given h.encrypt_buffer ≡ true
  pub lzo_work_buffer : s.do_compress ≡ true → is_given h.lzo_work_buffer ≡ true
  pub write_buffer : is_given h.write_buffer ≡ true

pub Outcome_given :
    {c : Bool} {p : Pool} {size : ℕ} {x : Option ℕ × Pool}
    → Outcome c p size x
    → c ≡ true
    → is_given x.0 ≡ true
Outcome_given (inl (_, (a, e, g))) t = ap is_given e
Outcome_given {c} (inr (e, _)) t = let q : true ≡ false = sym t ∙ e in absurd (cc)

Outcome_sure :
    {c : Bool} {p : Pool} {size : ℕ} {x : Option ℕ × Pool}
    → Outcome c p size x
    → c ≡ true
    → (a : ℕ) × (x.0 ≡ some a) × IsAllocated p size a x.1
Outcome_sure (inl (_, g)) t = g
Outcome_sure {c} (inr (e, _)) t = let q : true ≡ false = sym t ∙ e in absurd (cc)

apart : (a b : ℕ) → b < a → not (is_same (some a) (some b)) ≡ true
apart a b h = ground arith

same_self : (x : Option ℕ) → is_same x x ≡ true
same_self none = refl
same_self (some a) = ground arith

module _ (s : Setup) (p : Pool) (t : AreTaken s p) (pos : 0 < s.page_size) where
  buffer_pos : 0 < buffer_size s
  buffer_pos = omega (arith, pos)

  write_given : is_given (with_write s p).0 ≡ true
  write_given = elim (Bool-cases (s.do_compress || s.use_threads)) [
    | inl c ↦ Outcome_given t.write c
    | inr c ↦ ap is_given (t.own c) ∙ Outcome_given t.buffer refl
  ]

  pub taken-AreGiven : AreGiven s (take_buffers s p).0
  unfolding take_buffers
  taken-AreGiven = record {
    extents = Outcome_given t.extents refl;
    buffer = Outcome_given t.buffer refl;
    encrypt_buffer = Outcome_given t.encrypt;
    lzo_work_buffer = Outcome_given t.lzo;
    write_buffer = write_given;
  }

  -- The write buffer is told from the buffer by its address.
  write_apart :
      (not (is_same (with_write s p).0 (with_buffer s p).0)) ≡ (s.do_compress || s.use_threads)
  write_apart = elim (Bool-cases (s.do_compress || s.use_threads)) [
    | inl c ↦
        let (b, e, g) = Outcome_sure t.buffer refl in
        let (w, f, h) = Outcome_sure t.write c in
        let area =
          Outcome-HasArea s.do_compress t.lzo
            (Outcome-HasArea s.do_encrypt t.encrypt (IsAllocated-HasArea g)) in
        ap₂ (λ x y. not (is_same x y)) f e
        ∙ apart w b (omega (arith, HasArea-le h area, buffer_pos))
        ∙ sym c
    | inr c ↦
        ap (λ x. not (is_same x (with_buffer s p).0)) (t.own c)
        ∙ ap not (same_self (with_buffer s p).0)
        ∙ sym c
  ]

  -- Freed again, the buffers leave the pool with the areas it had.
  pub free_swap_writer-IsSame :
      0 < s.lzo_work → IsSame p (free_swap_writer s (take_buffers s p).0 (take_buffers s p).1)
  unfolding free_swap_writer take_buffers
  free_swap_writer-IsSame lzo_pos =
      let w =
        free_if-IsSame (s.do_compress || s.use_threads) (write_size s) t.positive t.write
          (same (with_write s p).1 t.valid) in
      let l = free_if-IsSame s.do_compress s.lzo_work (λ _. lzo_pos) t.lzo w in
      let c =
        free_if-IsSame s.do_encrypt (encrypt_buf_size s) (λ _. omega (arith, pos)) t.encrypt l in
      let b = free_if-IsSame true (buffer_size s) (λ _. omega (arith, pos)) t.buffer c in
      let e = free_if-IsSame true s.page_size (λ _. pos) t.extents b in
      rw (write_apart, is_given_if s.do_encrypt (with_buffer s p).1 (encrypt_buf_size s) t.encrypt)
        e
