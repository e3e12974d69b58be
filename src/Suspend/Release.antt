-- ===== src/Suspend/Release.antt =====
-- `suspend_system` of suspend.c lets the processes run again before it returns.
use suspend.Common.{
  ℕ, zero, suc, ◌≡◌, ◌≢◌, refl, inl, inr, Bool, false, Bool-cases, List, ◌∷◌, ◌==◌, arith,
}
use suspend.Suspend.{
  Call, unfreeze_processes, Answer, done, enotty, failed, Kernel, Outcome, returned, halted, World,
  ioctl, check_free_swap, set_image_size, atomic_snapshot, freeze, reset_signature, enospc_code,
  error_of, s2ram_enter,
}
use suspend.Suspend.System.{
  ImageWriter, write_image, leave, after_reset, slept, image_stored, image_written, snapshot_made,
  size_set, rounds, run_test, frozen, suspend_system, prepared,
}

module _ (k : Kernel) where
  -- A result that is returned comes with `unfreeze` as the last call.
  abbrev pub IsReleased : Outcome × World k → Type 0
  IsReleased (returned e, w) = (before : List Call) × (w.log ≡ unfreeze_processes ∷ before)
  IsReleased (halted, w) = Unit

  leave-IsReleased : (e : ℕ) (w : World k) → IsReleased (leave k e w)
  unfolding ioctl
  leave-IsReleased e w = (w.log, refl)

  after_reset-IsReleased :
      (e : ℕ) (f : World k → World k) (r : Outcome × World k) → IsReleased (after_reset k e f r)
  after_reset-IsReleased e f (returned x, w) = leave-IsReleased e (f w)
  after_reset-IsReleased e f (halted, w) = tt

  slept-IsReleased : (r : Answer × World k) → IsReleased (slept k r)
  slept-IsReleased (done n, w) = after_reset-IsReleased 0 _ (reset_signature k w)
  slept-IsReleased (enotty, w) = tt
  slept-IsReleased (failed e, w) = tt

  module _ (i : ImageWriter k) (verify s2ram : Bool) where
    image_stored-IsReleased : (w : World k) → IsReleased (image_stored k i verify s2ram w)
    unfolding image_stored
    image_stored-IsReleased w = elim (Bool-cases s2ram) [
      | inl t ↦ rw t (slept-IsReleased (ioctl k s2ram_enter w))
      | inr t ↦ rw t tt
    ]

    image_written-IsReleased :
        (again : World k → Outcome × World k) (r : ℕ × World k)
        → ((w : World k) → IsReleased (again w))
        → IsReleased (image_written k i verify s2ram again r)
    image_written-IsReleased again (zero, w) h = image_stored-IsReleased w
    image_written-IsReleased again (suc e, w) h = elim (Bool-cases (suc e == enospc_code)) [
      | inl t ↦ rw t (h _)
      | inr t ↦ rw t (leave-IsReleased (suc e) _)
    ]

    snapshot_made-IsReleased :
        (again : World k → Outcome × World k) (error : ℕ) (r : Answer × World k)
        → ((w : World k) → IsReleased (again w))
        → IsReleased (snapshot_made k i verify s2ram again error r)
    snapshot_made-IsReleased again error (done zero, w) h = leave-IsReleased error _
    snapshot_made-IsReleased again error (done (suc n), w) h =
        image_written-IsReleased again (write_image k i verify w) h
    snapshot_made-IsReleased again error (enotty, w) h = leave-IsReleased (error_of enotty) w
    snapshot_made-IsReleased again error (failed e, w) h = leave-IsReleased (error_of (failed e)) w

    size_set-IsReleased :
        (again : World k → Outcome × World k) (error : ℕ) (r : ℕ × World k)
        → ((w : World k) → IsReleased (again w))
        → IsReleased (size_set k i verify s2ram again error r)
    size_set-IsReleased again error (zero, w) h =
        snapshot_made-IsReleased again error (atomic_snapshot k w) h
    size_set-IsReleased again error (suc e, w) h = leave-IsReleased (suc e) w

    rounds-IsReleased :
        (n error size : ℕ) (w : World k) → IsReleased (rounds k i verify s2ram n error size w)
    unfolding rounds
    rounds-IsReleased zero error size w = leave-IsReleased error w
    rounds-IsReleased (suc n) error size w =
        size_set-IsReleased _ error (set_image_size k size w) (rounds-IsReleased n enospc_code 0)

    frozen-IsReleased :
        (test : Bool) (size : ℕ) (r : ℕ × World k)
        → IsReleased (frozen k i verify s2ram test size r)
    unfolding run_test
    frozen-IsReleased test size (zero, w) = elim (Bool-cases test) [
      | inl t ↦ rw t (after_reset-IsReleased _ _ (reset_signature k _))
      | inr t ↦ rw t (rounds-IsReleased 2 0 size (prepared k w))
    ]
    frozen-IsReleased test size (suc e, w) = leave-IsReleased (suc e) w

    -- Where there is swap to use, `suspend_system` either never returns or makes `unfreeze` its last
    -- call, on every path: freeze failed, test mode, each error of a round, and the way back from
    -- the image or from RAM.
    pub suspend_system-IsReleased :
        (test : Bool) (pref : ℕ) (w : World k)
        → (check_free_swap k w).0 ≢ 0
        → IsReleased (suspend_system k i verify s2ram test pref w)
    unfolding suspend_system
    suspend_system-IsReleased test pref w ne =
        let t : ((check_free_swap k w).0 == 0) ≡ false = ground arith in
        rw t (frozen-IsReleased test _ (freeze k (check_free_swap k w).1))
