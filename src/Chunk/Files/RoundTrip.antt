-- ===== src/Chunk/Files/RoundTrip.antt =====
-- A chunk that is uploaded and downloaded again.
use kyrin_box.Prelude.{
  ℕ, ◌≡◌, ◌∙◌, refl, true, some, ◌++◌, Bytes, pos, eq_ℤ, ◌<◌, length, take, take-append, All, text,
  arith, ap,
}
use kyrin_box.Common.Base64.{base64_encode, base64_decode}
use kyrin_box.Common.Base64.RoundTrip.{decode-encode}
use kyrin_box.Io.Codec.{Codec, RoundTrips}
use kyrin_box.Io.Database.{LevelDb}
use kyrin_box.Server.Base.{Request, server_get_postdata, server_send_reply_ok}
use kyrin_box.Chunk.Files.{
  UploadChunkFileRequest, DownloadChunkFileRequest, FileSystem, replied, chunk_size, chunk_path,
  upload_chunk_file, download_chunk_file,
}

-- What was written at a position of a file is read there, before what the file has behind it.
pub record IsFileSystem (F : FileSystem) : Type 0 where
  pub reads :
      (fs fs' : F.Fs) (path content : Bytes) (offset n : ℕ)
      → F.write_at fs path (pos offset) content ≡ some fs'
      → (rest : Bytes) × (F.read_at fs' path (pos offset) n
          ≡ some (pos offset, take n (content ++ rest)))

module _ (L : LevelDb) (F : FileSystem) (uploads : Codec UploadChunkFileRequest)
    (downloads : Codec DownloadChunkFileRequest) where
  -- A request of the client, as the handlers read it.
  upload_lem :
      (req : Request) (m : UploadChunkFileRequest) (b path content : Bytes) (db : L.Db)
      (fs fs' : F.Fs)
      → RoundTrips uploads
      → uploads.serialize m ≡ some b
      → All (λ c. c < 256) b
      → server_get_postdata req ≡ some (base64_encode b)
      → m.chunk ≡ base64_encode content
      → All (λ c. c < 256) content
      → chunk_path m.account m.file_name ≡ some path
      → F.write_at fs path m.offset content ≡ some fs'
      → upload_chunk_file L F uploads req db fs
        ≡ replied (server_send_reply_ok req (text "OK")) db fs'
  unfolding upload_chunk_file
  upload_lem req m b path content db fs fs' codec wrote bytes posted chunk small there written =
      let decoded : base64_decode m.chunk ≡ content =
        ap base64_decode chunk ∙ decode-encode content small in
      let parsed : (uploads.parse (base64_decode (base64_encode b))).1 ≡ m =
        rw (decode-encode b bytes, codec m b wrote) refl in
      rw (posted, parsed, there, parsed, decoded, written, upload_chunk_file) refl

  download_lem :
      (req : Request) (m : DownloadChunkFileRequest) (b path content : Bytes) (offset : ℕ)
      (db : L.Db) (fs : F.Fs)
      → RoundTrips downloads
      → downloads.serialize m ≡ some b
      → All (λ c. c < 256) b
      → server_get_postdata req ≡ some (base64_encode b)
      → m.offset ≡ pos offset
      → chunk_path m.account m.file_name ≡ some path
      → F.read_at fs path (pos offset) chunk_size ≡ some (pos offset, content)
      → download_chunk_file L F downloads req db fs
        ≡ replied (server_send_reply_ok req (base64_encode content)) db fs
  unfolding download_chunk_file
  download_lem req m b path content offset db fs codec wrote bytes posted at there read =
      let parsed : (downloads.parse (base64_decode (base64_encode b))).1 ≡ m =
        rw (decode-encode b bytes, codec m b wrote) refl in
      let same : eq_ℤ (pos offset) (pos offset) ≡ true = ground arith in
      rw (posted, parsed, there, parsed, at, read, parsed, at, same, download_chunk_file) refl

  -- A chunk of a client that is uploaded, and written, is downloaded again from its account, file
  -- and offset as the very text that was posted, if it has the size of a chunk.
  pub download-upload :
      (files : IsFileSystem F) (req req' : Request) (account file_name b b' path content : Bytes)
      (offset : ℕ) (db : L.Db) (fs fs' : F.Fs)
      → RoundTrips uploads
      → RoundTrips downloads
      → uploads.serialize record {
        account = account;
        file_name = file_name;
        chunk = base64_encode content;
        offset = pos offset;
      }
        ≡ some b
      → downloads.serialize record { account = account; file_name = file_name; offset = pos offset }
        ≡ some b'
      → All (λ c. c < 256) b
      → All (λ c. c < 256) b'
      → All (λ c. c < 256) content
      → server_get_postdata req ≡ some (base64_encode b)
      → server_get_postdata req' ≡ some (base64_encode b')
      → chunk_path account file_name ≡ some path
      → length content ≡ chunk_size
      → F.write_at fs path (pos offset) content ≡ some fs'
      → (upload_chunk_file L F uploads req db fs
          ≡ replied (server_send_reply_ok req (text "OK")) db fs')
        × (download_chunk_file L F downloads req' db fs'
            ≡ replied (server_send_reply_ok req' (base64_encode content)) db fs')
  download-upload files req req' account file_name b b' path content offset db fs fs' up down wrote
        wrote' bytes bytes' small posted posted' there size written =
      let (rest, read) = files.reads fs fs' path content offset chunk_size written in
      let cut = take-append chunk_size content rest size in
      (
        upload_lem req _ b path content db fs fs' up wrote bytes posted refl small there written,
        download_lem req' _ b' path content offset db fs' down wrote' bytes' posted' refl there
            (read ∙ ap (λ c. some (pos offset, c)) cut),
      )
