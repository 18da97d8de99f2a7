-- ===== src/Common/OplogId/Tests.antt =====
-- Runs of the id helper, and its theorems at concrete ids.
use kyrin_box.Prelude.{
  ◌+◌, ◌≡◌, refl, ◌&&◌, Bool, true, false, some, [], ◌∷◌, ◌⊎◌, ◌^◌, Bytes, arith, replicate,
}
use kyrin_box.Common.OplogId.{get_zero, add_one}
use kyrin_box.Common.OplogId.Order.{IsId, value, lex_lt, add_one-value, add_one-adjacent}

abbrev id_255 : Bytes
id_255 = 0 ∷ 0 ∷ 0 ∷ 0 ∷ 0 ∷ 0 ∷ 1 ∷ 255 ∷ []

abbrev id_256 : Bytes
id_256 = 0 ∷ 0 ∷ 0 ∷ 0 ∷ 0 ∷ 0 ∷ 2 ∷ 0 ∷ []

carries : add_one id_255 ≡ some (id_256, true)
unfolding add_one
carries = refl

wraps : add_one (replicate 8 255) ≡ some (replicate 8 0, false)
unfolding add_one
wraps = refl

id_255-IsId : IsId id_255
id_255-IsId = omega arith

add_one-value_example :
    (t : Bytes) × (b : Bool) × (add_one id_255 ≡ some (t, b))
    × IsId t
    × ((b ≡ true) × (value t ≡ value id_255 + 1)
        ⊎ (b ≡ false) × (value id_255 + 1 ≡ 2 ^ 64) × (value t ≡ 0))
add_one-value_example = add_one-value id_255 id_255-IsId

add_one-adjacent_example :
    (lex_lt id_255 id_256 ≡ true) × ((lex_lt id_255 get_zero && lex_lt get_zero id_256) ≡ false)
unfolding get_zero add_one
add_one-adjacent_example = add_one-adjacent id_255 id_256 get_zero id_255-IsId (omega arith) refl
