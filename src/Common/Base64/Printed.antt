-- ===== src/Common/Base64/Printed.antt =====
-- An encoded text as `%s` prints it.
use kyrin_box.Prelude.{
  ℕ, zero, suc, ◌<◌, ◌≡◌, refl, ap, false, [], ◌∷◌, Bytes, ◌==◌, All, c_str, arith,
}
use kyrin_box.Common.Base64.{base64_encode, is_base64}
use kyrin_box.Common.Base64.Shape.{IsText, encode-IsText}

IsText-ne_zero : (c : ℕ) → IsText c → (c == 0) ≡ false
unfolding is_base64
IsText-ne_zero zero h = cc
IsText-ne_zero (suc c) h = ground arith

c_str_of_texts : (s : Bytes) → All IsText s → c_str s ≡ s
unfolding c_str
c_str_of_texts [] h = refl
c_str_of_texts (c ∷ s) h = rw (IsText-ne_zero c h.0) (ap (◌∷◌ c) (c_str_of_texts s h.1))

-- An encoded text has no zero byte.
pub c_str-encode : (b : Bytes) → All (λ c. c < 256) b → c_str (base64_encode b) ≡ base64_encode b
c_str-encode b bytes = c_str_of_texts (base64_encode b) (encode-IsText b bytes).0
