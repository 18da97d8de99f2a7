-- ===== src/Chunk/Server.antt =====
-- server/chunk/kyrin_chunk_server.cc: which handler a request to a chunk server goes to.
use kyrin_box.Prelude.{Option, none, some}
use kyrin_box.Io.Codec.{Codec}
use kyrin_box.Io.Database.{LevelDb}
use kyrin_box.Server.Base.{Request}
use kyrin_box.Server.Identity.{Verdict, pass, rejected}
use kyrin_box.Chunk.Files.{
  UploadChunkFileRequest, DownloadChunkFileRequest, FileKeyInfo, FileSystem, Handled, replied,
  undefined, set_file_key_info, get_file_key_info, upload_chunk_file, download_chunk_file,
}

pub data Endpoint : Type 0 where
  upload download set_info get_info : Endpoint

pub record Codecs : Type 0 where
  pub upload_request : Codec UploadChunkFileRequest
  pub download_request : Codec DownloadChunkFileRequest
  pub info : Codec FileKeyInfo

module _ (L : LevelDb) (F : FileSystem) where
  pub handle : Codecs → Endpoint → Request → L.Db → F.Fs → Handled L F
  handle codecs upload req db fs = upload_chunk_file L F codecs.upload_request req db fs
  handle codecs download req db fs = download_chunk_file L F codecs.download_request req db fs
  handle codecs set_info req db fs = set_file_key_info L F codecs.info req db fs
  handle codecs get_info req db fs = get_file_key_info L F codecs.info req db fs

  -- The four `process_..._request`s, behind the filter, whose result is given; `none` is undefined
  -- behaviour of the filter.
  pub process : Codecs → Option Verdict → Endpoint → Request → L.Db → F.Fs → Handled L F
  unfolding handle
  process codecs verdict endpoint req db fs = elim verdict [
    | none ↦ undefined
    | some v ↦ elim v [
      | pass h ↦ handle codecs endpoint req db fs
      | rejected h reply ↦ replied reply db fs
    ]
  ]
