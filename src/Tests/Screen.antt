-- ===== src/Tests/Screen.antt =====
-- The framebuffer of twrp-graphics.c on a screen of 4 by 2 pixels.
use android_device_samsung_c.Base.{◌≡◌, refl, none, some, [], ◌∷◌, true, false, arith}
use android_device_samsung_c.Memory.{Mem}
use android_device_samsung_c.Memory.Painted.{Painted}
use android_device_samsung_c.Framebuffer.{
  VInfo, FInfo, Kernel, Surface, Screen, Build, null, live, page, get_framebuffer, gr_flip, gr_init,
  gr_exit,
}
use android_device_samsung_c.Framebuffer.Descriptors.{IsUnchanged, answers, get_framebuffer-refused}
use android_device_samsung_c.Framebuffer.Pages.{
  IsGranted, IsRoomy, IsPaged, get_framebuffer-IsPaged,
}
use android_device_samsung_c.Framebuffer.Flip.{
  IsReady, IsSteady, image_bytes, page_of, other, gr_flip-IsReady,
}
use android_device_samsung_c.Framebuffer.Rounds.{IsRound, IsModest, IsStart}
use android_device_samsung_c.Framebuffer.Frames.{draw, show, Shows, session_frames}
use android_device_samsung_c.Framebuffer.Refused.{IsRefused, gr_init-double_free}
use android_device_samsung_c.Twrp.Screen.{twrp, request, virtual, twrp-IsLawful, twrp-IsRoomy}
use android_device_samsung_c.Twrp.Screen as TwrpScreen

abbrev pub small : VInfo
small = record {
  xres = 4;
  yres = 2;
  xres_virtual = 4;
  yres_virtual = 2;
  yoffset = 0;
  bits_per_pixel = 32;
  red_offset = 0;
  red_length = 0;
  green_offset = 0;
  green_length = 0;
  blue_offset = 0;
  blue_length = 0;
  transp_offset = 0;
  transp_length = 0;
}

abbrev memory : FInfo
memory = record { smem_len = 40; line_length = 10 }

abbrev pub board : Build
board = twrp false true

abbrev pub kernel : Kernel
kernel = record {
  fb0 = some 4;
  vscreen = some small;
  put = λ vi. some vi;
  fscreen = some memory;
  mapping = some (λ i. 7);
  tty0 = some 3;
  kd_graphics = true;
  heap = λ i. i;
}

abbrev unmapped : Kernel
unmapped = record kernel { mapping = none }

abbrev nowhere : Surface
nowhere = record { width = 0; height = 0; stride = 0; bits = 0 }

abbrev pub at_start : Screen
at_start = record {
  vi = small;
  fi = memory;
  pixels = record { size = 0; byte = λ i. 0 };
  front = nowhere;
  back = nowhere;
  mem_surface = record { width = 0; height = 0; stride = 0; bits = null };
  active_fb = 0;
  double_buffering = false;
  fb_fd = none;
  vt_fd = some 3;
  files = 3 ∷ [];
}

abbrev image : Mem
image = record { size = 16; byte = λ i. i }

abbrev running : Screen
running = record at_start {
  pixels = record { size = 40; byte = λ i. 0 };
  front = page board memory small 0;
  back = record { width = 4; height = 2; stride = 4; bits = 16 };
  mem_surface = record { width = 4; height = 2; stride = 4; bits = live image };
  double_buffering = true;
}

-- What the kernel's answers come to.
abbrev asked : VInfo
asked = request false small

abbrev laid_out : VInfo
laid_out = virtual true memory asked

get_framebuffer-refused_example :
    (s' : Screen) × (get_framebuffer board unmapped at_start ≡ some (none, s'))
    × IsUnchanged at_start s'
unfolding answers
get_framebuffer-refused_example = get_framebuffer-refused board unmapped at_start refl

kernel-IsGranted : IsGranted board kernel 4 small asked memory (λ i. 7)
kernel-IsGranted = record { fb0 = refl; vscreen = refl; put = refl; fscreen = refl; mapping = refl }

memory-IsRoomy : IsRoomy board memory laid_out
unfolding request virtual
memory-IsRoomy = twrp-IsRoomy false true memory laid_out (omega arith) (omega arith) (omega arith)

get_framebuffer-IsPaged_example :
    (s' : Screen) × (get_framebuffer board kernel at_start ≡ some (some 4, s'))
    × IsPaged board memory laid_out false s'
    × (s'.files ≡ 4 ∷ 3 ∷ [])
    × (s'.vt_fd ≡ some 3)
get_framebuffer-IsPaged_example =
    get_framebuffer-IsPaged board kernel at_start 4 small asked memory (λ i. 7) kernel-IsGranted
      memory-IsRoomy

kernel-IsSteady : IsSteady kernel
unfolding IsSteady
kernel-IsSteady vi vi' e = (cc, cc)

running-IsReady : IsReady board image running
unfolding TwrpScreen.image_bytes
running-IsReady = record {
  source = refl;
  image = omega arith;
  first = omega arith;
  second = λ d. omega arith;
  active = omega arith;
  alone = λ d. refl;
}

gr_flip-IsReady_example :
    (s' : Screen) × (gr_flip board kernel running ≡ some s')
    × (s'.active_fb ≡ other running)
    × Painted
        (image_bytes board running)
        (λ t old. t)
        ((page_of s' s'.active_fb).bits)
        running.pixels
        s'.pixels
    × (image_bytes board s' ≡ image_bytes board running)
    × IsReady board image s'
gr_flip-IsReady_example =
    gr_flip-IsReady board kernel image running (twrp-IsLawful false true) kernel-IsSteady
      running-IsReady

abbrev pub second_kernel : Kernel
second_kernel = record kernel { fb0 = some 6; tty0 = some 5 }

kernel-IsRound : IsRound board kernel 4 3 memory laid_out
kernel-IsRound = record {
  v = small;
  asked = asked;
  bytes = λ i. 7;
  granted = kernel-IsGranted;
  layout = refl;
  roomy = memory-IsRoomy;
  steady = kernel-IsSteady;
  console = refl;
  graphics = refl;
}

second_kernel-IsRound : IsRound board second_kernel 6 5 memory laid_out
unfolding IsSteady
second_kernel-IsRound = record {
  v = small;
  asked = asked;
  bytes = λ i. 7;
  granted = record { fb0 = refl; vscreen = refl; put = refl; fscreen = refl; mapping = refl };
  layout = refl;
  roomy = memory-IsRoomy;
  steady = kernel-IsSteady;
  console = refl;
  graphics = refl;
}

abbrev pub fresh : Screen
fresh = record at_start { files = [] }

fresh-IsModest : IsModest memory laid_out fresh
fresh-IsModest d = cc d

pub fresh-IsStart : IsStart board kernel second_kernel 4 3 6 5 fresh
fresh-IsStart = record {
  fi = memory;
  vi = laid_out;
  lawful = twrp-IsLawful false true;
  one = kernel-IsRound;
  two = second_kernel-IsRound;
  modest = fresh-IsModest;
}

session_frames_example :
    (s1 s2 s3 : Screen) × (gr_init board kernel second_kernel fresh ≡ some (true, s1))
    × (show board kernel ((λ i. 1) ∷ (λ i. 2) ∷ []) s1 ≡ some s2)
    × (gr_flip board kernel (draw (λ i. i) s2) ≡ some s3)
    × Shows board (λ i. i) s3
session_frames_example =
    session_frames board kernel (twrp-IsLawful false true) kernel-IsSteady kernel second_kernel
      fresh 4 3 6 5 fresh-IsStart ((λ i. 1) ∷ (λ i. 2) ∷ []) (λ i. i)

unmapped-IsRefused : IsRefused board unmapped
unfolding answers
unmapped-IsRefused = record { refused = refl; graphics = refl }

gr_init-double_free_example :
    (s' : Screen) × (gr_init board kernel unmapped fresh ≡ some (false, s')) × (gr_exit s' ≡ none)
gr_init-double_free_example =
    gr_init-double_free board kernel unmapped fresh 4 3 memory laid_out (twrp-IsLawful false true)
      kernel-IsRound fresh-IsModest unmapped-IsRefused
