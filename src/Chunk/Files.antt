-- ===== src/Chunk/Files.antt =====
-- server/request_handlers/{set,get}_file_key_info_request_handler.cc and
-- {upload,download}_chunk_file_request_handler.cc: the files on a chunk server.
pub mod RoundTrip
mod Tests
use kyrin_box.Prelude.{
  ℕ, Bool, Option, none, some, ◌++◌, Bytes, ℤ, eq_ℤ, ltb, if◌then◌else◌, text, length, c_str,
}
use kyrin_box.Common.Base64.{base64_encode, base64_decode}
use kyrin_box.Io.Codec.{Codec}
use kyrin_box.Io.Database
use kyrin_box.Io.Database.{LevelDb}
use kyrin_box.Server.Base.{
  Request, Reply, server_get_postdata, server_send_reply_ok, server_send_reply_bad,
}

-- The messages of protobuf/upload_chunk_file.proto.
pub record UploadChunkFileRequest : Type 0 where
  pub account : Bytes
  pub file_name : Bytes
  pub chunk : Bytes
  pub offset : ℤ

pub record DownloadChunkFileRequest : Type 0 where
  pub account : Bytes
  pub file_name : Bytes
  pub offset : ℤ

pub record FileKeyInfo : Type 0 where
  pub account : Bytes
  pub file_name : Bytes

-- The file system: `stat` of a directory, `mkdir`, `fopen` with "wb", and the calls from `fopen`
-- with "rb+" to `fclose`, which start at the position that `fseek` leaves and give it with what was
-- read. `none` is a null `FILE`.
pub record FileSystem : Type 1 where
  pub Fs : Type 0
  pub is_dir : Fs → Bytes → Bool
  pub mkdir : Fs → Bytes → Fs
  pub create : Fs → Bytes → Option Fs
  pub write_at : Fs → Bytes → ℤ → Bytes → Option Fs
  pub read_at : Fs → Bytes → ℤ → ℕ → Option (ℤ × Bytes)

-- `k_chunk_size`
abbrev pub chunk_size : ℕ
chunk_size = 1024

-- `sprintf` of a path into 1024 bytes; `none` is a write behind their end.
pub fits : Bytes → Option Bytes
fits path = if ltb (length path) 1024 then some path else none

pub user_dir : Bytes → Option Bytes
unfolding fits
user_dir account = fits (text "./" ++ c_str account)

pub chunk_path : Bytes → Bytes → Option Bytes
unfolding fits
chunk_path account file_name =
    fits (text "./" ++ (c_str account ++ (text "/" ++ (c_str file_name ++ text ".chunkfile"))))

module _ (L : LevelDb) (F : FileSystem) where
  -- What a request comes to: a reply, or undefined behaviour.
  pub data Handled : Type 0 where
    replied : Option Reply → L.Db → F.Fs → Handled
    undefined : Handled

  -- `SetFileKeyInfoRequestHandler::handle_request`; the result of `put` is not looked at.
  pub set_file_key_info : Codec FileKeyInfo → Request → L.Db → F.Fs → Handled
  set_file_key_info codec req db fs = elim (server_get_postdata req) [
    | none ↦ replied (server_send_reply_bad req (text "Can't read post data...")) db fs
    | some body ↦
        let info = (codec.parse (base64_decode body)).1 in
        let (_, db') = Database.put L db (info.account ++ info.file_name) (base64_decode body) in
        elim (user_dir info.account) [
          | none ↦ undefined
          | some dir ↦
              let fs1 = if F.is_dir fs dir then fs else F.mkdir fs dir in
              elim (chunk_path info.account info.file_name) [
                | none ↦ undefined
                | some path ↦ elim (F.create fs1 path) [
                  | none ↦ undefined
                  | some fs2 ↦
                      replied (server_send_reply_ok req (text "Set file key info success")) db' fs2
                ]
              ]
        ]
  ]

  -- `GetFileKeyInfoRequestHandler::handle_request`
  pub get_file_key_info : Codec FileKeyInfo → Request → L.Db → F.Fs → Handled
  get_file_key_info codec req db fs = elim (server_get_postdata req) [
    | none ↦ replied (server_send_reply_bad req (text "Can't read post data...")) db fs
    | some body ↦
        let info = (codec.parse (base64_decode body)).1 in
        let (found, value, db') = Database.get L db (info.account ++ info.file_name) in
        if found
        then replied (server_send_reply_ok req (base64_encode value)) db' fs
        else replied (server_send_reply_bad req (text "No such file")) db' fs
  ]

  -- `UploadChunkFileRequestHandler::handle_request`
  pub upload_chunk_file : Codec UploadChunkFileRequest → Request → L.Db → F.Fs → Handled
  upload_chunk_file codec req db fs = elim (server_get_postdata req) [
    | none ↦ replied (server_send_reply_bad req (text "Can't read post data...")) db fs
    | some body ↦
        let request = (codec.parse (base64_decode body)).1 in
        elim (chunk_path request.account request.file_name) [
          | none ↦ undefined
          | some path ↦ elim (F.write_at fs path request.offset (base64_decode request.chunk)) [
            | none ↦ replied (server_send_reply_bad req (text "failed to right")) db fs
            | some fs' ↦ replied (server_send_reply_ok req (text "OK")) db fs'
          ]
        ]
  ]

  -- `DownloadChunkFileRequestHandler::handle_request`: `ftell(fp) - offset` is the number of bytes
  -- that were read only where `fseek` went to the offset; else the reply takes bytes that were not.
  pub download_chunk_file : Codec DownloadChunkFileRequest → Request → L.Db → F.Fs → Handled
  download_chunk_file codec req db fs = elim (server_get_postdata req) [
    | none ↦ replied (server_send_reply_bad req (text "Can't read post data...")) db fs
    | some body ↦
        let request = (codec.parse (base64_decode body)).1 in
        elim (chunk_path request.account request.file_name) [
          | none ↦ undefined
          | some path ↦ elim (F.read_at fs path request.offset chunk_size) [
            | none ↦ replied (server_send_reply_bad req (text "failed to right")) db fs
            | some (start, buff) ↦
                if eq_ℤ start request.offset
                then replied (server_send_reply_ok req (base64_encode buff)) db fs
                else undefined
          ]
        ]
  ]
