-- ===== src/Master/Oplog.antt =====
-- The messages of protobuf/operation_log.proto, get_oplog.proto and upload_file.proto, and the two
-- databases of a master.
pub mod Store
pub mod Example
use kyrin_box.Prelude.{
  true, false, if◌then◌else◌, ℕ, Bool, List, Bytes, ℤ, pos, Option, none, some, [],
}
use kyrin_box.Io.Codec.{Codec}
use kyrin_box.Io.Database.{LevelDb}
use kyrin_box.Common.OplogId.{get_zero, add_one}
use kyrin_box.Io.Database

pub record OperationLog : Type 0 where
  pub op_type : ℤ
  pub log_data : Bytes

-- `OperationLog()`
abbrev pub default_log : OperationLog
default_log = record { op_type = pos 0; log_data = [] }

pub record OperationLogMessage : Type 0 where
  pub state : ℤ
  pub op_id : Bytes
  pub op_log : OperationLog

pub record GetOplogResponse : Type 0 where
  pub last_id : Bytes
  pub log_data : List Bytes

pub record UploadFileRequest : Type 0 where
  pub account : Bytes
  pub file_name : Bytes
  pub merkle_sha1 : Bytes
  pub file_size : ℤ

pub record UploadFileResponse : Type 0 where
  pub file_hosts : List Bytes
  pub file_size : ℤ
  pub merkle_sha1 : Bytes

-- Its field `data` is `content`.
pub record UploadFileOperation : Type 0 where
  pub key : Bytes
  pub content : UploadFileResponse

pub record Codecs : Type 0 where
  pub log : Codec OperationLog
  pub message : Codec OperationLogMessage
  pub page : Codec GetOplogResponse
  pub request : Codec UploadFileRequest
  pub response : Codec UploadFileResponse
  pub operation : Codec UploadFileOperation

-- `m_oplog_db` and `m_userdata_db`
pub record Dbs (L : LevelDb) : Type 0 where
  pub oplog : L.Db
  pub userdata : L.Db

-- The id behind the last one in the log: `fetch_last_key` and `add_one`, or `get_zero`; `none` is
-- undefined behaviour of `add_one`.
unfoldable pub next_id : (L : LevelDb) → L.Db → Option Bytes
next_id L db = elim (Database.fetch_last_key L db) [
  | none ↦ some get_zero
  | some key ↦ elim (add_one key) [ none ↦ none | some (id, _) ↦ some id ]
]

-- What the three lines that store an operation come to.
pub data Stored : Type 0 where
  stored log_failed data_failed : Stored

module _ (L : LevelDb) where
  -- `put` of the log under its id, `put` of the data under its key, and, if that fails, `remove` of
  -- the log.
  unfoldable pub store : Dbs L → Bytes → Bytes → Bytes → Bytes → Stored × Dbs L
  store s id log key data' =
      let (logged, o1) = Database.put L s.oplog id log in
      let (kept, u1) = Database.put L s.userdata key data' in
      let (_, o2) = Database.remove L o1 id in
      if logged
      then (if kept
          then (stored, record { oplog = o1; userdata = u1 })
          else (data_failed, record { oplog = o2; userdata = u1 }))
      else (log_failed, record s { oplog = o1 })
