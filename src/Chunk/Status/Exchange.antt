-- ===== src/Chunk/Status/Exchange.antt =====
-- A status that is sent is received as it was.
use kyrin_box.Prelude.{
  false, ℕ, suc, ◌≤◌, ◌<◌, ◌≡◌, ◌∙◌, refl, true, some, List, [], ◌∷◌, ◌++◌, ◌==◌, ltb, Bool-cases,
  Option-cases, arith, sym, inl, inr, Bytes, map,
}
use mathlib.Core.List.{append_assoc, append-nil}
use kyrin_box.Io.Codec.{Codec, RoundTrips}
use kyrin_box.Chunk.Status.{
  Config, ChunkStatus, GossipData, ClusterStatus, find, assign, check_commons, to_data, to_protobuf,
  to_string, assign_datas, from_string,
}

-- The keys of the map grow, and none lies below `b`.
abbrev pub Ascending : ℕ → List (ℕ × Config) → Type 0
Ascending b [] = Unit {0}
Ascending b ((k, c) ∷ m) = (b ≤ k) × Ascending (suc k) m

abbrev AllBelow : ℕ → List (ℕ × Config) → Type 0
AllBelow b [] = Unit {0}
AllBelow b ((k, c) ∷ m) = (k < b) × AllBelow b m

pub assign-Ascending :
    (b k : ℕ) (c : Config) (m : List (ℕ × Config))
    → b ≤ k
    → Ascending b m
    → Ascending b (assign k c m)
unfolding assign
assign-Ascending b k c [] h a = (h, tt)
assign-Ascending b k c ((j, d) ∷ m) h a = elim (Bool-cases (k == j)) [
  | inl same ↦ let e : k ≡ j = ground arith in rw same (h, rw e a.1)
  | inr other ↦ elim (Bool-cases (ltb k j)) [
    | inl less ↦ rw (other, less) (h, (ground arith, a.1))
    | inr more ↦ rw (other, more) (a.0, assign-Ascending (suc j) k c m (ground arith) a.1)
  ]
]

assign-end :
    (k : ℕ) (c : Config) (m : List (ℕ × Config)) → AllBelow k m → assign k c m ≡ m ++ ((k, c) ∷ [])
unfolding assign
assign-end k c [] h = refl
assign-end k c ((j, d) ∷ m) h = ground (arith, assign-end k c m h.1)

AllBelow-append :
    (b k : ℕ) (c : Config) (m : List (ℕ × Config))
    → k < b
    → AllBelow k m
    → AllBelow b (m ++ ((k, c) ∷ []))
AllBelow-append b k c [] h a = (h, tt)
AllBelow-append b k c ((j, d) ∷ m) h a = (omega arith, AllBelow-append b k c m h a.1)

AllBelow-mono : (a b : ℕ) (m : List (ℕ × Config)) → a ≤ b → AllBelow a m → AllBelow b m
AllBelow-mono a b [] h k = tt
AllBelow-mono a b (p ∷ m) h k = (omega arith, AllBelow-mono a b m h k.1)

assign_datas-map :
    (b : ℕ) (m acc : List (ℕ × Config))
    → Ascending b m
    → AllBelow b acc
    → assign_datas (map to_data m) acc ≡ acc ++ m
unfolding assign_datas
assign_datas-map b [] acc a h = sym (append-nil acc)
assign_datas-map b ((k, c) ∷ m) acc a h =
    let low = AllBelow-mono b k acc a.0 h in
    rw (assign_datas, assign-end k c acc low)
      (assign_datas-map (suc k) m (acc ++ ((k, c) ∷ [])) a.1
          (AllBelow-append (suc k) k c acc (omega arith) low)
        ∙ append_assoc acc ((k, c) ∷ []) m)

-- A message that is parsed to what a status was written as is read as this status.
pub from_string-protobuf :
    (codec : Codec ClusterStatus) (s t : ChunkStatus) (b : Bytes)
    → Ascending 0 s.configs
    → codec.parse b ≡ (true, to_protobuf s)
    → from_string codec b t ≡ (s, true)
unfolding from_string to_protobuf
from_string-protobuf codec s t b a parsed = rw (parsed, assign_datas-map 0 s.configs [] a tt) refl

-- What one server writes and another one reads is the same status, whatever that one knew before.
pub from_string-to_string :
    (codec : Codec ClusterStatus) (s t : ChunkStatus) (b : Bytes)
    → RoundTrips codec
    → Ascending 0 s.configs
    → to_string codec s ≡ some b
    → from_string codec b t ≡ (s, true)
unfolding to_string
from_string-to_string codec s t b trip a h =
    from_string-protobuf codec s t b a (trip (to_protobuf s) b h)

assign_datas-Ascending :
    (ds : List GossipData) (m : List (ℕ × Config)) → Ascending 0 m → Ascending 0 (assign_datas ds m)
unfolding assign_datas
assign_datas-Ascending [] m a = a
assign_datas-Ascending (d ∷ ds) m a =
    assign_datas-Ascending ds (assign d.kbid d.config m)
      (assign-Ascending 0 d.kbid d.config m (omega arith) a)

-- The map is in the order of its keys after whatever is received, in a status or in a hello.
pub received-Ascending :
    (codec : Codec ClusterStatus) (b : Bytes) (d : GossipData) (now : ℕ) (s : ChunkStatus)
    → Ascending 0 s.configs
    → Ascending 0 (from_string codec b s).0.configs × Ascending 0 (check_commons d now s).0.configs
unfolding from_string check_commons
received-Ascending codec b d now s a = (
  elim (Bool-cases (codec.parse b).0) [
    | inl good ↦ rw good (assign_datas-Ascending (codec.parse b).1.datas [] tt)
    | inr bad ↦ rw bad a
  ],
  elim (Option-cases (find d.kbid s.configs)) [
    | inl new ↦
        rw (new, check_commons) (assign-Ascending 0 d.kbid d.config s.configs (omega arith) a)
    | inr (c, known) ↦ rw (known, check_commons) a
  ],
)

-- What is read does not hang on what was known before.
pub from_string-parsed :
    (codec : Codec ClusterStatus) (b : Bytes) (s t : ChunkStatus)
    → (from_string codec b s).1 ≡ true
    → from_string codec b t ≡ from_string codec b s
unfolding from_string
from_string-parsed codec b s t h = elim (Bool-cases (codec.parse b).0) [
  | inl good ↦ rw good refl
  | inr bad ↦ let none_read : false ≡ true = rw bad at h in absurd (ground arith)
]

-- A hello of a server that is known changes nothing.
pub check_commons_known :
    (d : GossipData) (now : ℕ) (s : ChunkStatus) (c : Config)
    → find d.kbid s.configs ≡ some c
    → check_commons d now s ≡ (s, false)
unfolding check_commons
check_commons_known d now s c known = rw (known, check_commons) refl
