-- ===== src/Common/Cluster/Tests.antt =====
-- A file of two entries, as it stands in the repository's deployment scripts.
use kyrin_box.Prelude.{◌≡◌, refl, [], ◌∷◌, text}
use kyrin_box.Common.Cluster.{ConfigMap}
use kyrin_box.Common.Cluster.Documents.{document}

abbrev entries : ConfigMap
entries = (text "ServerType", text "Master") ∷ ((text "Kbid", text "2") ∷ [])

words :
    document (text "heading") entries
    ≡ text "heading"
      ∷ (text "{"
          ∷ (text "\"ServerType\""
              ∷ (text ":"
                  ∷ (text "\"Master\","
                      ∷ (text "\"Kbid\"" ∷ (text ":" ∷ (text "\"2\"" ∷ (text "}" ∷ []))))))))
words = refl
