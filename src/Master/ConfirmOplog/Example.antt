-- ===== src/Master/ConfirmOplog/Example.antt =====
-- Codecs that know the messages of one upload, for the tests of the two phases.
use mathlib.Core.Option.{some-injective}
use kyrin_box.Prelude.{
  eq_ℤ_lem, and-true, sym, false, ◌≡◌, refl, true, Bool, ◌&&◌, none, some, List, [], ◌∷◌, Bytes, ℤ,
  pos, eq_ℤ, eq_bytes, eq_bytes_iff, if◌then◌else◌, text, inl, inr, Bool-cases, arith,
}
use kyrin_box.Common.OplogId.{get_zero}
use kyrin_box.Io.Codec.{RoundTrips}
use kyrin_box.Master.Oplog.{
  OperationLog, OperationLogMessage, UploadFileOperation, UploadFileResponse, Codecs, default_log,
}
use kyrin_box.Master.Oplog.Example

abbrev pub same_message : OperationLogMessage → OperationLogMessage → Bool
same_message m k =
    eq_ℤ m.state k.state
    && (eq_bytes m.op_id k.op_id
        && (eq_ℤ m.op_log.op_type k.op_log.op_type && eq_bytes m.op_log.log_data k.op_log.log_data))

same_message_lem : (m k : OperationLogMessage) → same_message m k ≡ true → m ≡ k
same_message_lem m k e =
    let (state, e1) = and-true (eq_ℤ m.state k.state) _ e in
    let (id, e2) = and-true (eq_bytes m.op_id k.op_id) _ e1 in
    let (kind, content) = and-true (eq_ℤ m.op_log.op_type k.op_log.op_type) _ e2 in
    joined m.state k.state m.op_id k.op_id m.op_log.op_type k.op_log.op_type m.op_log.log_data
      k.op_log.log_data (eq_ℤ_lem m.state k.state state) ((eq_bytes_iff m.op_id k.op_id).0 id)
      (eq_ℤ_lem m.op_log.op_type k.op_log.op_type kind)
      ((eq_bytes_iff m.op_log.log_data k.op_log.log_data).0 content)
  where
    joined :
        (a a' : ℤ) (b b' : Bytes) (c c' : ℤ) (d d' : Bytes)
        → a ≡ a'
        → b ≡ b'
        → c ≡ c'
        → d ≡ d'
        → ◌≡◌ {A = OperationLogMessage}
            record { state = a; op_id = b; op_log = record { op_type = c; log_data = d } }
            record { state = a'; op_id = b'; op_log = record { op_type = c'; log_data = d' } }
    joined a a' b b' c c' d d' p q r s = rw (p, q, r, s) refl

abbrev pub upload_log : OperationLog
upload_log = record { op_type = pos 1; log_data = text "op" }

abbrev pub first_message : OperationLogMessage
first_message = record { state = pos 1; op_id = get_zero; op_log = upload_log }

abbrev pub second_message : OperationLogMessage
second_message = record { state = pos 2; op_id = get_zero; op_log = default_log }

abbrev pub content : UploadFileResponse
content = record { file_hosts = []; file_size = pos 3; merkle_sha1 = text "sha" }

abbrev pub operation : UploadFileOperation
operation = record { key = text "key"; content = content }

abbrev no_hosts : List Bytes → Bool
no_hosts [] = true
no_hosts (host ∷ hosts) = false

no_hosts_lem : (hosts : List Bytes) → no_hosts hosts ≡ true → hosts ≡ []
no_hosts_lem [] e = refl
no_hosts_lem (host ∷ hosts) e = cc

abbrev pub same_operation : UploadFileOperation → Bool
same_operation o =
    eq_bytes o.key (text "key")
    && (no_hosts o.content.file_hosts
        && (eq_ℤ o.content.file_size (pos 3) && eq_bytes o.content.merkle_sha1 (text "sha")))

same_operation_lem : (o : UploadFileOperation) → same_operation o ≡ true → o ≡ operation
same_operation_lem o e =
    let (key, e1) = and-true (eq_bytes o.key (text "key")) _ e in
    let (hosts, e2) = and-true (no_hosts o.content.file_hosts) _ e1 in
    let (size, sha) = and-true (eq_ℤ o.content.file_size (pos 3)) _ e2 in
    joined o.key o.content.file_hosts o.content.file_size o.content.merkle_sha1
      ((eq_bytes_iff o.key (text "key")).0 key) (no_hosts_lem o.content.file_hosts hosts)
      (eq_ℤ_lem o.content.file_size (pos 3) size)
      ((eq_bytes_iff o.content.merkle_sha1 (text "sha")).0 sha)
  where
    joined :
        (a : Bytes) (b : List Bytes) (c : ℤ) (d : Bytes)
        → a ≡ text "key"
        → b ≡ []
        → c ≡ pos 3
        → d ≡ text "sha"
        → ◌≡◌ {A = UploadFileOperation}
            record { key = a; content = record { file_hosts = b; file_size = c; merkle_sha1 = d } }
            operation
    joined a b c d p q r s = rw (p, q, r, s) refl

abbrev pub codecs : Codecs
codecs = record Example.codecs {
  message = record {
    serialize = λ m.
        if same_message m first_message
        then some (text "1")
        else if same_message m second_message
        then some (text "2")
        else none;
    parse = λ b. (true, if eq_bytes b (text "1") then first_message else second_message);
  };
  operation = record {
    serialize = λ o. if same_operation o then some (text "op") else none;
    parse = λ b. (true, operation);
  };
}

pub message-RoundTrips : RoundTrips codecs.message
unfolding eq_bytes
message-RoundTrips m b e = elim (Bool-cases (same_message m first_message)) [
  | inl first ↦
      let known = same_message_lem m first_message first in
      let wrote : text "1" ≡ b = some-injective _ _ (rw (first) at e) in rw (sym wrote, known) refl
  | inr other ↦ elim (Bool-cases (same_message m second_message)) [
    | inl second ↦
        let known = same_message_lem m second_message second in
        let wrote : text "2" ≡ b = some-injective _ _ (rw (other, second) at e) in
        rw (sym wrote, known) refl
    | inr unknown ↦ let bad = rw (other, unknown) at e in absurd (ground arith)
  ]
]

pub operation-RoundTrips : RoundTrips codecs.operation
operation-RoundTrips o b e = elim (Bool-cases (same_operation o)) [
  | inl same ↦ rw (same_operation_lem o same) refl
  | inr unknown ↦ let bad = rw (unknown) at e in absurd (ground arith)
]
