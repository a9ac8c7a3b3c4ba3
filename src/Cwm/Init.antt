-- ===== src/Cwm/Init.antt =====
-- gr_init of configs/recovery/graphics.c where the kernel refuses the framebuffer.
use android_device_samsung_c.Base.{◌≡◌, refl, ◌∙◌, ap, sym, none, some}
use android_device_samsung_c.Framebuffer.{Kernel, Screen}
use android_device_samsung_c.Framebuffer.Refused.{
  IsRefused, First, First-free, gr_init_orig-refused, gr_flip-blind,
}
use android_device_samsung_c.Cwm.Screen.{Format, cwm, cwm-IsLawful, gr_flip, gr_init}

-- Where the second round of gr_init is refused the framebuffer, whether the first was granted it or
-- refused it too, gr_init returns 0 all the same; gr_fb_fd is -1 then, and the first gr_flip reads
-- through a pointer that is null or was freed.
pub gr_init-blind :
    (f : Format) (first second : Kernel) (s : Screen)
    → First (cwm f) first s
    → IsRefused (cwm f) second
    → (s' : Screen) × (gr_init f first second s ≡ some s')
      × (s'.fb_fd ≡ none)
      × ((k : Kernel) → gr_flip f k s' ≡ none)
unfolding gr_init
gr_init-blind f first second s before r =
    let (ok, s1, e1, bits, e) = First-free (cwm f) first s (cwm-IsLawful f) before in
    let (s2, e2, h, fd) = gr_init_orig-refused (cwm f) second s1 bits r e in
    (
      s2,
      rw (e1, e2) refl,
      fd,
      λ k. gr_flip-blind (cwm f) k s2 s1.mem_surface.bits (e ∙ ap some (sym h)),
    )
