-- ===== src/Tests/Reach.antt =====
-- Flips in any order between gr_init and gr_exit, on a screen of 4 by 2 pixels.
use android_device_samsung_c.Base.{◌≡◌, some, [], ◌∷◌, true}
use android_device_samsung_c.Framebuffer.{Kernel, Screen, gr_flip, gr_init, gr_exit}
use android_device_samsung_c.Framebuffer.Flip.{IsSteady}
use android_device_samsung_c.Framebuffer.Reach.{Reach, Reach-flips}
use android_device_samsung_c.Tests.Screen.{board, kernel, second_kernel, fresh, fresh-IsStart}

Reach-flips_example :
    (s1 : Screen) × (gr_init board kernel second_kernel fresh ≡ some (true, s1))
    × ((t : Screen)
        → Reach board s1 t
        → ((k : Kernel)
            → IsSteady k
            → (u : Screen) × (gr_flip board k t ≡ some u) × Reach board s1 u)
          × ((u : Screen) × (gr_exit t ≡ some u) × (u.files ≡ 4 ∷ 3 ∷ [])))
Reach-flips_example = Reach-flips board kernel second_kernel fresh 4 3 6 5 fresh-IsStart
