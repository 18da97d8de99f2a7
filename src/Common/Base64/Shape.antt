-- ===== src/Common/Base64/Shape.antt =====
-- The characters of an encoding, and where decoding stops.
use kyrin_box.Prelude.{
  ℕ, ◌+◌, ◌*◌, ◌/◌, ◌<◌, ◌≡◌, refl, [], ◌∷◌, ◌++◌, Bytes, length, All, All-append, arith, ◌==◌,
  if◌then◌else◌, true, false, not, ◌&&◌, ◌||◌, length-append, map,
}
use kyrin_box.Common.Base64.{
  char_of, sextet_of, triple, is_base64, quad, encode_loop, base64_encode, decode_loop,
  base64_decode,
}
use kyrin_box.Common.Base64.Sextets.{char_of_accepted, masks}
use kyrin_box.Common.Base64.RoundTrip.{group, encode_three, encode_loop-append}

-- A character of the alphabet or the padding.
abbrev pub IsText : ℕ → Type 0
IsText c = (is_base64 c || c == b'=') ≡ true

char_of-IsText : (n : ℕ) → n < 64 → IsText (char_of n)
char_of-IsText n h = ground (arith, char_of_accepted n h)

pad-IsText : IsText b'='
unfolding is_base64
pad-IsText = refl

group-IsText : (a b c : ℕ) → a < 256 → b < 256 → c < 256 → All IsText (group a b c)
unfolding quad
group-IsText a b c ha hb hc =
    let p = masks a ha in
    let q = masks b hb in
    let r = masks c hc in
    rw (p.fc, p.l03, q.f0, q.l0f, r.c0, r.l3f)
      (
        char_of-IsText _ (omega arith),
        (
          char_of-IsText _ (omega arith),
          (char_of-IsText _ (omega arith), (char_of-IsText _ (omega arith), tt)),
        ),
      )

encode_loop-IsText : (s : Bytes) → All (λ c. c < 256) s → All IsText (encode_loop [] s [])
encode_loop-IsText [] h = unfold encode_loop in tt
encode_loop-IsText (a ∷ []) h =
    let g = group-IsText a 0 0 h.0 (omega arith) (omega arith) in
    unfold encode_loop quad in (g.0, (g.1.0, (pad-IsText, (pad-IsText, tt))))
encode_loop-IsText (a ∷ b ∷ []) h =
    let g = group-IsText a b 0 h.0 h.1.0 (omega arith) in
    unfold encode_loop quad in (g.0, (g.1.0, (g.1.1.0, (pad-IsText, tt))))
encode_loop-IsText (a ∷ b ∷ c ∷ s) h =
    rw (encode_three a b c s [], encode_loop-append s (group a b c))
      (All-append IsText (group a b c) (encode_loop [] s []) (group-IsText a b c h.0 h.1.0 h.1.1.0)
        (encode_loop-IsText s h.1.1.1))

length-group : (a b c : ℕ) → length (group a b c) ≡ 4
unfolding quad
length-group a b c = refl

length-encode_loop : (s : Bytes) → length (encode_loop [] s []) ≡ (length s + 2) / 3 * 4
length-encode_loop [] = unfold encode_loop in refl
length-encode_loop (a ∷ []) = unfold encode_loop quad in refl
length-encode_loop (a ∷ b ∷ []) = unfold encode_loop quad in refl
length-encode_loop (a ∷ b ∷ c ∷ s) =
    rw
      (
        encode_three a b c s [],
        encode_loop-append s (group a b c),
        length-append (group a b c) (encode_loop [] s []),
        length-group a b c,
        length-encode_loop s,
      )
      (omega arith)

-- Every character of an encoding lies in the alphabet or is padding, and each group of three
-- bytes, the last one also if it is shorter, gives four characters.
pub encode-IsText :
    (s : Bytes)
    → All (λ c. c < 256) s
    → All IsText (base64_encode s) × (length (base64_encode s) ≡ (length s + 2) / 3 * 4)
unfolding base64_encode
encode-IsText s h = (encode_loop-IsText s h, length-encode_loop s)

decode_loop-stops :
    (arr s t : Bytes) (c : ℕ) (ret : Bytes)
    → (not (c == b'=') && is_base64 c) ≡ false
    → decode_loop arr (s ++ (c ∷ t)) ret ≡ decode_loop arr s ret
unfolding decode_loop
decode_loop-stops arr [] t c ret h = ground arith
decode_loop-stops arr (d ∷ s) t c ret h =
    let arr' = arr ++ (d ∷ []) in
    let full = length arr' == 4 in
    rw (
      decode_loop-stops (if full then [] else arr') s t c
        (if full then ret ++ triple (map sextet_of arr') else ret) h)

-- Decoding ends at the first `=` or character outside the alphabet: what follows is ignored.
pub decode_stops :
    (s t : Bytes) (c : ℕ)
    → (not (c == b'=') && is_base64 c) ≡ false
    → base64_decode (s ++ (c ∷ t)) ≡ base64_decode s
unfolding base64_decode
decode_stops s t c h = decode_loop-stops [] s t c [] h
