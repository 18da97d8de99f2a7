-- ===== src/Common/Cluster/Documents.antt =====
-- Configuration files of the form that the deployment scripts keep to, as words between spaces.
use kyrin_box.Prelude.{
  ◌^◌, ◌<◌, Option, some, List, [], ◌∷◌, ◌++◌, Bytes, if◌then◌else◌, eq_bytes, text, length,
}
use kyrin_box.Common.Cluster.{ConfigMap, assign}

-- `"key" : "value",`, without the comma in the last line, and the bracket behind it.
abbrev pub lines : ConfigMap → List Bytes
lines [] = text "}" ∷ []
lines ((k, v) ∷ []) =
    (b'"' ∷ (k ++ (b'"' ∷ []))) ∷ (text ":" ∷ ((b'"' ∷ (v ++ (b'"' ∷ []))) ∷ (text "}" ∷ [])))
lines ((k, v) ∷ (e ∷ es)) =
    (b'"' ∷ (k ++ (b'"' ∷ [])))
    ∷ (text ":" ∷ ((b'"' ∷ (v ++ (b'"' ∷ (b',' ∷ [])))) ∷ lines (e ∷ es)))

-- The words of a file: its first line, the bracket, and the entries.
abbrev pub document : Bytes → ConfigMap → List Bytes
document heading es = heading ∷ (text "{" ∷ lines es)

-- The value of the last entry for the key, or else `o`.
abbrev pub latest : Bytes → ConfigMap → Option Bytes → Option Bytes
latest key [] o = o
latest key ((k, v) ∷ es) o = latest key es (if eq_bytes key k then some v else o)

abbrev pub IsShort : Bytes × Bytes → Type 0
IsShort e = (length e.0 < 2 ^ 63) × (length e.1 < 2 ^ 63)

-- The entries of a document are assigned one after the other.
assign_each : ConfigMap → ConfigMap → ConfigMap
assign_each [] m = m
assign_each ((k, v) ∷ es) m = assign_each es (assign k v m)
