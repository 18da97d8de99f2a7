-- ===== src/Io/Codec.antt =====
-- The generated protobuf classes, as a parameter: one codec for each message type.
pub mod One
use kyrin_box.Prelude.{◌≡◌, Bool, true, Option, none, some, [], Bytes}

-- `SerializeToString` leaves the empty text if it fails; `ParseFromString` returns its result and
-- what the message holds then.
pub record Codec (M : Type 0) : Type 0 where
  pub serialize : M → Option Bytes
  pub parse : Bytes → Bool × M

-- What a message was serialised to is parsed to that message.
abbrev pub RoundTrips : {M : Type 0} → Codec M → Type 0
RoundTrips {M} c = (m : M) (b : Bytes) → c.serialize m ≡ some b → c.parse b ≡ (true, m)

-- The string behind a `SerializeToString` whose result is not looked at.
abbrev pub or_empty : Option Bytes → Bytes
or_empty none = []
or_empty (some b) = b
