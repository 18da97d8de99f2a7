-- ===== src/Master/ConfirmOplog/CatchUp/Example.antt =====
-- A database in memory that works, and a log of one entry with the codec of its page.
use kyrin_box.Prelude.{
  ◌≡◌, refl, sym, true, false, Bool, ◌&&◌, and-true, List, [], ◌∷◌, Bytes, eq_bytes, eq_bytes_iff,
  text, inl, inr, Bool-cases,
}
use kyrin_box.Common.Base64.{base64_encode}
use kyrin_box.Common.OplogId.{get_zero}
use kyrin_box.Io.Codec.One.{one}
use kyrin_box.Io.Database.Tests.{memory}
use kyrin_box.Master.Oplog.{Codecs, GetOplogResponse}
use kyrin_box.Master.Oplog.Example
use kyrin_box.Master.ConfirmOplog.CatchUp.{IsWorking}

pub memory-IsWorking : IsWorking memory
memory-IsWorking = record {
  takes = λ db k v. refl;
  gives = λ db k v. let same = (eq_bytes_iff k k).1 refl in rw same refl;
  keeps = λ db k j v other. elim (Bool-cases (eq_bytes j k)) [
    | inl same ↦ absurd (other (sym ((eq_bytes_iff j k).0 same)))
    | inr differ ↦ rw differ refl
  ];
}

abbrev eq_all : List Bytes → List Bytes → Bool
eq_all [] [] = true
eq_all (x ∷ xs) (y ∷ ys) = eq_bytes x y && eq_all xs ys
eq_all _ _ = false

eq_all_lem : (xs ys : List Bytes) → eq_all xs ys ≡ true → xs ≡ ys
eq_all_lem [] [] e = refl
eq_all_lem [] (y ∷ ys) e = cc
eq_all_lem (x ∷ xs) [] e = cc
eq_all_lem (x ∷ xs) (y ∷ ys) e =
    let (first, others) = and-true (eq_bytes x y) (eq_all xs ys) e in
    let first' = (eq_bytes_iff x y).0 first in let others' = eq_all_lem xs ys others in cc

abbrev pub same_page : GetOplogResponse → GetOplogResponse → Bool
same_page m k = eq_bytes m.last_id k.last_id && eq_all m.log_data k.log_data

pub same_page_lem : (m k : GetOplogResponse) → same_page m k ≡ true → m ≡ k
same_page_lem m k e =
    let (id, items) = and-true (eq_bytes m.last_id k.last_id) _ e in
    joined m.last_id k.last_id m.log_data k.log_data ((eq_bytes_iff m.last_id k.last_id).0 id)
      (eq_all_lem m.log_data k.log_data items)
  where
    joined :
        (a a' : Bytes) (b b' : List Bytes)
        → a ≡ a'
        → b ≡ b'
        → ◌≡◌ {A = GetOplogResponse}
            record { last_id = a; log_data = b }
            record { last_id = a'; log_data = b' }
    joined a a' b b' p q = rw (p, q) refl

abbrev pub sent : GetOplogResponse
sent = record { last_id = get_zero; log_data = text "op" ∷ [] }

abbrev pub codecs : Codecs
codecs = record Example.codecs { page = one same_page sent }

abbrev pub theirs : List (Bytes × Bytes)
theirs = (get_zero, text "op") ∷ []

abbrev pub second : Bytes
second = 0 ∷ (0 ∷ (0 ∷ (0 ∷ (0 ∷ (0 ∷ (0 ∷ (1 ∷ [])))))))

abbrev pub page_text : Bytes
page_text = base64_encode (text "1")
