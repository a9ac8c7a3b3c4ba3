-- ===== src/Minui/Draws.antt =====
-- What a drawing function of recovery/graphics.cpp makes of the surface, byte by byte.
use android_device_samsung_c.Base.{ℕ, ◌+◌, ◌*◌, ◌<◌, ◌≡◌, refl, sym, ◌∙◌, ap, Option, some, ◌>>=◌}
use android_device_samsung_c.Memory.{Mem}
use android_device_samsung_c.Minui.{Gr, with_bytes}

-- `r` is `g` with each byte `c` of each row `y` of its surface put through `f y c`, and nothing else
-- changed; there was no fault.
pub record Draws (g : Gr) (f : ℕ → ℕ → ℕ → ℕ) (r : Option Gr) : Type 0 where
  pub final : Mem
  pub returns : r ≡ some (with_bytes g final)
  pub size : final.size ≡ g.draw.bytes.size
  pub at :
      (y c : ℕ)
      → y < g.draw.height
      → c < g.draw.row_bytes
      → final.byte (y * g.draw.row_bytes + c) ≡ f y c (g.draw.bytes.byte (y * g.draw.row_bytes + c))

pub Draws-same :
    (g : Gr) (f : ℕ → ℕ → ℕ → ℕ) → ((y c old : ℕ) → f y c old ≡ old) → Draws g f (some g)
Draws-same g f same = record {
  final = g.draw.bytes;
  returns = refl;
  size = refl;
  at = λ y c hy hc. sym (same y c _);
}

module _ {g : Gr} {f : ℕ → ℕ → ℕ → ℕ} {r : Option Gr} (d : Draws g f r) where
  pub Draws-eq : {r' : Option Gr} → r' ≡ r → Draws g f r'
  Draws-eq e = record { final = d.final; returns = e ∙ d.returns; size = d.size; at = d.at }

  pub Draws-ext : {f' : ℕ → ℕ → ℕ → ℕ} → ((y c old : ℕ) → f y c old ≡ f' y c old) → Draws g f' r
  Draws-ext same = record {
    final = d.final;
    returns = d.returns;
    size = d.size;
    at = λ y c hy hc. d.at y c hy hc ∙ same y c _;
  }

-- One drawing after another.
pub Draws-then :
    (g : Gr) (f f2 : ℕ → ℕ → ℕ → ℕ) (r : Option Gr) (k : Gr → Option Gr)
    → Draws g f r
    → ((m : Mem) → m.size ≡ g.draw.bytes.size → Draws (with_bytes g m) f2 (k (with_bytes g m)))
    → Draws g (λ y c old. f2 y c (f y c old)) (r >>= k)
Draws-then g f f2 r k d next =
    let e = next d.final d.size in
    record {
      final = e.final;
      returns = rw d.returns e.returns;
      size = e.size ∙ d.size;
      at = λ y c hy hc. e.at y c hy hc ∙ ap (f2 y c) (d.at y c hy hc);
    }
