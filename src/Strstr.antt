-- ===== src/Strstr.antt =====
-- libshims/libC/strstr.c: the strstr that accepts null pointers, which the camera library is given.
-- A C string is the list of its bytes before the NUL, a pointer that may be null an Option; the
-- result is the offset into `s`, or `none` for NULL. `strncmp` is that of the C library. The log
-- lines are left out.
pub mod First
use android_device_samsung_c.Base.{
  ℕ, zero, suc, ◌+◌, Option, none, some, List, [], ◌∷◌, Bool, not, ◌==◌, if◌then◌else◌, length, ℤ,
  pos, sub_ℕ,
}

unfoldable pub strncmp : List ℕ → List ℕ → ℕ → ℤ
strncmp s t zero = pos 0
strncmp [] [] (suc n) = pos 0
strncmp [] (y ∷ t) (suc n) = sub_ℕ 0 y
strncmp (x ∷ s) [] (suc n) = pos x
strncmp (x ∷ s) (y ∷ t) (suc n) = let rest = strncmp s t n in if x == y then rest else sub_ℕ x y

abbrev pub is_zero : ℤ → Bool
is_zero (pos n) = n == 0
is_zero _ = Bool.false

-- The two nested do-while loops, from the byte at offset `i` on: both go on with the next byte.
unfoldable pub scan : (c : ℕ) (find : List ℕ) (len i : ℕ) → List ℕ → Option ℕ
scan c find len i [] = none
scan c find len i (sc ∷ s) =
    let next = scan c find len (i + 1) s in
    if not (sc == c) then next else if not (is_zero (strncmp s find len)) then next else some i

unfoldable pub strstr : Option (List ℕ) → Option (List ℕ) → Option ℕ
unfolding scan
strstr none find = none
strstr (some s) none = none
strstr (some s) (some []) = some 0
strstr (some s) (some (c ∷ find)) = scan c find (length find) 0 s
