-- ===== src/Master/GetOplog/Tests.antt =====
-- A page of two entries.
use kyrin_box.Prelude.{◌≡◌, [], ◌∷◌, Bytes, text, map, take}
use kyrin_box.Master.GetOplog.{page}
use kyrin_box.Master.GetOplog.Page.{last_key, page_lem}

page_lem_example : page 0 [] (text "a", text "1") ((text "b", text "2") ∷ []) ≡ (
  map (λ (p : Bytes × Bytes). p.1) (take 100 ((text "a", text "1") ∷ ((text "b", text "2") ∷ []))),
  last_key (text "a") (take 99 ((text "b", text "2") ∷ [])),
)
page_lem_example = page_lem (text "a", text "1") ((text "b", text "2") ∷ [])
