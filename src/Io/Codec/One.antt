-- ===== src/Io/Codec/One.antt =====
-- A codec that knows one message, for the tests: it is written as the text 1.
use kyrin_box.Prelude.{
  ◌≡◌, true, Bool, none, some, refl, if◌then◌else◌, text, Bool-cases, inl, inr, sym, ap, arith,
}
use kyrin_box.Io.Codec.{Codec, RoundTrips}

abbrev pub one : {M : Type 0} → (M → M → Bool) → M → Codec M
one same known = record {
  serialize = λ m. if same m known then some (text "1") else none;
  parse = λ b. (true, known);
}

pub one-RoundTrips :
    {M : Type 0} (same : M → M → Bool) (known : M)
    → ((m k : M) → same m k ≡ true → m ≡ k)
    → RoundTrips (one same known)
one-RoundTrips same known sound m b e = elim (Bool-cases (same m known)) [
  | inl yes' ↦ ap (λ k. (true, k)) (sym (sound m known yes'))
  | inr other ↦ let bad = rw (other) at e in absurd (ground arith)
]

pub one-serialize :
    {M : Type 0} (same : M → M → Bool) (known : M)
    → same known known ≡ true
    → (one same known).serialize known ≡ some (text "1")
one-serialize same known e = rw e refl
