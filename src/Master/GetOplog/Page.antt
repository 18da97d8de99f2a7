-- ===== src/Master/GetOplog/Page.antt =====
-- What a page holds.
use kyrin_box.Prelude.{
  ℕ, zero, suc, ◌+◌, ◌≡◌, ◌∙◌, refl, true, false, List, [], ◌∷◌, ◌++◌, Bytes, ◌==◌, take, map,
  arith,
}
use mathlib.Core.List.{append_assoc}
use kyrin_box.Master.GetOplog.{page}

-- The key of the last entry of a list that starts with an entry of this key.
abbrev pub last_key : Bytes → List (Bytes × Bytes) → Bytes
last_key k [] = k
last_key k ((j, v) ∷ l) = last_key j l

page-from :
    (n cnt : ℕ) (acc : List Bytes) (e : Bytes × Bytes) (rest : List (Bytes × Bytes))
    → cnt + suc n ≡ 100
    → page cnt acc e rest
      ≡ (acc ++ (e.1 ∷ map (λ p. p.1) (take n rest)), last_key e.0 (take n rest))
unfolding page
page-from zero cnt acc (k, v) [] h = refl
page-from (suc n) cnt acc (k, v) [] h = refl
page-from zero cnt acc (k, v) (f ∷ rest) h =
    let full : (cnt + 1 == 100) ≡ true = ground arith in rw full
page-from (suc n) cnt acc (k, v) (f ∷ rest) h =
    let open' : (cnt + 1 == 100) ≡ false = ground arith in
    rw (open') (
      page-from n (cnt + 1) (acc ++ (v ∷ [])) f rest (omega arith)
      ∙ rw (append_assoc acc (v ∷ []) (f.1 ∷ map (λ p. p.1) (take n rest))))

-- A page holds the values of the first hundred entries from the one that was asked for, or of all
-- if there are fewer, in the order of the log, and names the key of the last one it holds.
pub page_lem :
    (e : Bytes × Bytes) (rest : List (Bytes × Bytes))
    → page 0 [] e rest ≡ (map (λ p. p.1) (take 100 (e ∷ rest)), last_key e.0 (take 99 rest))
page_lem e rest = page-from 99 0 [] e rest refl
