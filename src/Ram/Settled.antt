-- ===== src/Ram/Settled.antt =====
-- What s2ram leaves behind: the console in front, the frame buffer console, the backlight.
use suspend.Common.{
  ℕ, ◌<◌, ◌≡◌, inl, inr, refl, Bool, true, false, not, ◌&&◌, [], ltb, none, arith, ◌∙◌,
  if◌then◌else◌,
}
use suspend.Ram.{Code, is_zero, Options, s2ram_is_supported, get_s2ram_config, s2ram_check_kms}
use suspend.Ram.Run.{
  on_vt, StateFile, no_file, opened, World, Ram, when, s2ram_hacks, sleep, s2ram_generic_do, switch,
  switch_back, after_hacks, with_quirks, if_supported, after_config, main,
}
use suspend.Ram.Steps.{
  front, is_lit, is_running, Keeps, sleep-Keeps, IsPrepared, Result, s2ram_hacks-Result, resume_lem,
}

-- The console from before is in front again, the console on the frame buffer runs, and the backlight
-- is on if the machine has a VGA device.
abbrev pub IsSettled : World → Ram → Type 0
IsSettled w r =
    (front w.fgconsole r.log ≡ w.fgconsole)
    × (is_running r.log ≡ true)
    × (w.has_vga ≡ true → is_lit r.log ≡ true)

abbrev pub fresh : Ram
fresh = record { vbe_buffer = none; vbe_mode = none; log = [] }

module _ (w : World) (known : 0 < w.fgconsole) (back : w.chvt w.fgconsole ≡ true) where
  last_switch :
      (x : Code × Ram)
      → is_running x.1.log ≡ true
      → (w.has_vga ≡ true → is_lit x.1.log ≡ true)
      → IsSettled w (switch_back w x).1
  last_switch (c, r) b l =
      let t : ltb 0 w.fgconsole ≡ true = ground (arith, known) in rw (t, back) (refl, b, l)

  switched :
      (c : Bool) (m : ℕ)
      → (is_running (when c (on_vt m) fresh).log ≡ true)
        × (is_lit (when c (on_vt m) fresh).log ≡ true)
  switched true m = (refl, refl)
  switched false m = (refl, refl)

  slept :
      (o : Options) (r s : Ram)
      → IsPrepared w.fgconsole o r s
      → IsPrepared w.fgconsole o r (sleep w w.state_file s).1
  unfolding Keeps
  slept o r s p =
      let (a, b, c) = sleep-Keeps w.fgconsole w w.state_file s in
      record { shown = a ∙ p.shown; running = λ t. b ∙ p.running t; lit = λ t. c ∙ p.lit t }

  hacked :
      (o : Options) (r : Ram) (x : Code × Ram)
      → Result w.fgconsole w o r x
      → (is_running (after_hacks w o x).1.log ≡ true)
        × (w.has_vga ≡ true → is_lit (after_hacks w o x).1.log ≡ true)
  unfolding Result s2ram_generic_do
  hacked o r (c, s) (inl (e, p)) =
      let (_, b, l) = resume_lem w.fgconsole w o r (sleep w w.state_file s).1 (slept o r s p) in
      rw e (b, λ _. l)
  hacked o r (c, s) (inr (e, p)) = rw e (p.running, p.lit)

  with_quirks-IsSettled : (o : Options) → IsSettled w (with_quirks w o fresh).1
  unfolding with_quirks
  with_quirks-IsSettled o =
      let r = switch w 1 fresh in
      let (b, l) = switched (w.chvt 1) 1 in
      let (b', l') = hacked o r (s2ram_hacks w o r) (s2ram_hacks-Result w.fgconsole w o r b l) in
      last_switch (after_hacks w o (s2ram_hacks w o r)) b' l'

  untouched : IsSettled w fresh
  untouched = (refl, refl, λ _. refl)

  pick :
      (b : Bool) (o : Options) (x : Code × Ram)
      → IsSettled w x.1
      → IsSettled w (if b then with_quirks w o fresh else x).1
  pick true o x h = with_quirks-IsSettled o
  pick false o x h = h

  config-IsSettled : (x : Code × Options) → IsSettled w (after_config w x fresh).1
  config-IsSettled (c, o) =
      let y = s2ram_is_supported w.is_framebuffer w.machine w.whitelist o in
      pick (is_zero c) o (if_supported w y fresh) (pick (is_zero y.0) y.1 (y.0, fresh) untouched)

  either :
      (b : Bool) (x y : Code × Ram)
      → IsSettled w x.1
      → IsSettled w y.1
      → IsSettled w (if b then x else y).1
  either true x y h g = h
  either false x y h g = g

  asleep : (f : StateFile) → IsSettled w (sleep w f fresh).1
  asleep no_file = untouched
  asleep (opened p c) = (refl, refl, λ _. refl)

  -- Whichever way s2ram goes, in the end the console that was in front is in front again, the frame
  -- buffer console is not frozen, and on a machine with a VGA device the backlight is on. The
  -- console in front is known and can be switched back to.
  pub main-IsSettled : (o : Options) → IsSettled w (main w o fresh).1
  unfolding main s2ram_generic_do
  main-IsSettled o =
      either (not o.no_kms_flag && is_zero (s2ram_check_kms w.drm w.errno))
        (sleep w w.state_file fresh) (after_config w (get_s2ram_config w.config o) fresh)
        (asleep w.state_file) (config-IsSettled (get_s2ram_config w.config o))
