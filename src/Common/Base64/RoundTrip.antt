-- ===== src/Common/Base64/RoundTrip.antt =====
-- Decoding undoes encoding.
use mathlib.Core.List.{append_assoc, append-nil}
use kyrin_box.Prelude.{
  ℕ, ◌+◌, ◌*◌, ◌/◌, ◌%◌, ◌<◌, ◌≡◌, refl, sym, ap, [], bit_and, map, ◌∷◌, ◌++◌, Bytes, All, arith,
}
use kyrin_box.Common.Base64.{
  char_of, quad, triple, encode_loop, base64_encode, decode_loop, base64_decode,
}
use kyrin_box.Common.Base64.Sextets.{char_of_accepted, sextet_of-char_of, masks}

-- The four characters of three bytes.
abbrev pub group : ℕ → ℕ → ℕ → Bytes
group a b c = map char_of (quad (a ∷ b ∷ c ∷ []))

pub encode_three :
    (a b c : ℕ) (s ret : Bytes)
    → encode_loop [] (a ∷ b ∷ c ∷ s) ret ≡ encode_loop [] s (ret ++ group a b c)
unfolding encode_loop
encode_three a b c s ret = refl

encode_nil : (ret : Bytes) → encode_loop [] [] ret ≡ ret
unfolding encode_loop
encode_nil ret = refl

pub encode_loop-append : (s ret : Bytes) → encode_loop [] s ret ≡ ret ++ encode_loop [] s []
encode_loop-append [] ret = rw (encode_nil ret, encode_nil []) (sym (append-nil ret))
encode_loop-append (a ∷ []) ret = unfold encode_loop in refl
encode_loop-append (a ∷ b ∷ []) ret = unfold encode_loop in refl
encode_loop-append (a ∷ b ∷ c ∷ s) ret =
    rw
      (
        encode_three a b c s ret,
        encode_three a b c s [],
        encode_loop-append s (ret ++ group a b c),
        encode_loop-append s (group a b c),
      )
      (append_assoc ret (group a b c) (encode_loop [] s []))

decode_four :
    (p q r s : ℕ) (rest ret : Bytes)
    → p < 64
    → q < 64
    → r < 64
    → s < 64
    → decode_loop [] (char_of p ∷ char_of q ∷ char_of r ∷ char_of s ∷ rest) ret
      ≡ decode_loop [] rest (ret ++ triple (p ∷ q ∷ r ∷ s ∷ []))
unfolding decode_loop
decode_four p q r s rest ret hp hq hr hs = rw (
  char_of_accepted p hp,
  char_of_accepted q hq,
  char_of_accepted r hr,
  char_of_accepted s hs,
  sextet_of-char_of p hp,
  sextet_of-char_of q hq,
  sextet_of-char_of r hr,
  sextet_of-char_of s hs,
)

triple-quad :
    (a b c : ℕ) → a < 256 → b < 256 → c < 256 → triple (quad (a ∷ b ∷ c ∷ [])) ≡ a ∷ b ∷ c ∷ []
unfolding triple quad
triple-quad a b c ha hb hc =
    let p = masks a ha in
    let q = masks b hb in
    let r = masks c hc in
    let x = masks ((a % 4 * 16 + b / 16) % 256) (omega arith) in
    let y = masks ((b % 16 * 4 + c / 64) % 256) (omega arith) in
    rw (p.fc, p.l03, q.f0, q.l0f, r.c0, r.l3f, x.m30, x.l0f, y.m3c, y.l03) (ground arith)

-- A last group of two bytes, and of one: the padding ends the loop.
decode_two :
    (p q r : ℕ) (ret : Bytes)
    → p < 64
    → q < 64
    → r < 64
    → decode_loop [] (char_of p ∷ char_of q ∷ char_of r ∷ b'=' ∷ []) ret
      ≡ ret ++ (((p * 4 + q % 64 / 16) % 256) ∷ ((q % 16 * 16 + r % 64 / 4) % 256) ∷ [])
unfolding decode_loop
decode_two p q r ret hp hq hr = rw (
  char_of_accepted p hp,
  char_of_accepted q hq,
  char_of_accepted r hr,
  sextet_of-char_of p hp,
  sextet_of-char_of q hq,
  sextet_of-char_of r hr,
  (masks q (omega arith)).m30,
  (masks q (omega arith)).l0f,
  (masks r (omega arith)).m3c,
)

decode_one :
    (p q : ℕ) (ret : Bytes)
    → p < 64
    → q < 64
    → decode_loop [] (char_of p ∷ char_of q ∷ b'=' ∷ b'=' ∷ []) ret
      ≡ ret ++ (((p * 4 + q % 64 / 16) % 256) ∷ [])
unfolding decode_loop
decode_one p q ret hp hq = rw (
  char_of_accepted p hp,
  char_of_accepted q hq,
  sextet_of-char_of p hp,
  sextet_of-char_of q hq,
  (masks q (omega arith)).m30,
)

decode-encode_two :
    (a b : ℕ) (ret : Bytes)
    → a < 256
    → b < 256
    → decode_loop [] (encode_loop [] (a ∷ b ∷ []) []) ret ≡ ret ++ (a ∷ b ∷ [])
unfolding encode_loop
decode-encode_two a b ret ha hb =
    let p = masks a ha in
    let q = masks b hb in
    rw
      (
        p.fc,
        p.l03,
        q.f0,
        q.l0f,
        decode_two (a / 4) ((a % 4 * 16 + b / 16) % 256) ((b % 16 * 4 + 0) % 256) ret (omega arith)
            (omega arith) (omega arith),
      )
      (ap (◌++◌ ret) (ground arith))

decode-encode_one :
    (a : ℕ) (ret : Bytes)
    → a < 256
    → decode_loop [] (encode_loop [] (a ∷ []) []) ret ≡ ret ++ (a ∷ [])
unfolding encode_loop
decode-encode_one a ret ha =
    let p = masks a ha in
    rw (p.fc, p.l03, decode_one (a / 4) ((a % 4 * 16 + 0) % 256) ret (omega arith) (omega arith))
      (ap (◌++◌ ret) (ground arith))

decode-encode_three :
    (a b c : ℕ) (rest ret : Bytes)
    → a < 256
    → b < 256
    → c < 256
    → decode_loop [] (group a b c ++ rest) ret ≡ decode_loop [] rest (ret ++ (a ∷ b ∷ c ∷ []))
unfolding quad
decode-encode_three a b c rest ret ha hb hc =
    let p = masks a ha in
    let q = masks b hb in
    let r = masks c hc in
    rw (← triple-quad a b c ha hb hc) (
      decode_four (bit_and a 0xfc / 4) _ _ (bit_and c 0x3f) rest ret (rw p.fc (omega arith))
        (rw (p.l03, q.f0) (omega arith)) (rw (q.l0f, r.c0) (omega arith)) (rw r.l3f (omega arith)))

decode_loop-encode_loop :
    (s ret : Bytes) → All (λ c. c < 256) s → decode_loop [] (encode_loop [] s []) ret ≡ ret ++ s
decode_loop-encode_loop [] ret h = unfold encode_loop decode_loop in sym (append-nil ret)
decode_loop-encode_loop (a ∷ []) ret h = decode-encode_one a ret h.0
decode_loop-encode_loop (a ∷ b ∷ []) ret h = decode-encode_two a b ret h.0 h.1.0
decode_loop-encode_loop (a ∷ b ∷ c ∷ s) ret h =
    rw
      (
        encode_three a b c s [],
        encode_loop-append s (group a b c),
        decode-encode_three a b c (encode_loop [] s []) ret h.0 h.1.0 h.1.1.0,
        decode_loop-encode_loop s (ret ++ (a ∷ b ∷ c ∷ [])) h.1.1.1,
      )
      (append_assoc ret (a ∷ b ∷ c ∷ []) s)

-- Decoding an encoded string gives the string back, whatever bytes it holds.
pub decode-encode : (s : Bytes) → All (λ c. c < 256) s → base64_decode (base64_encode s) ≡ s
unfolding base64_encode base64_decode
decode-encode s h = decode_loop-encode_loop s [] h
