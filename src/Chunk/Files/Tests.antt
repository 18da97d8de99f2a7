-- ===== src/Chunk/Files/Tests.antt =====
-- A chunk of 1024 bytes on files that are lists of bytes.
use kyrin_box.Prelude.{
  eq_ℤ_lem, and-true, ℕ, zero, suc, ◌+◌, ◌<◌, ◌≡◌, refl, sym, true, Bool, ◌&&◌, Option, none, some,
  [], ◌∷◌, ◌++◌, Bytes, ℤ, pos, negsuc, eq_ℤ, eq_bytes, eq_bytes_iff, if◌then◌else◌, c_str, length,
  take, drop, replicate, All, text, Option-cases, inl, inr, arith,
}
use mathlib.Core.Option.{some-injective}
use kyrin_box.Common.Base64.{base64_encode}
use kyrin_box.Io.Codec.{Codec}
use kyrin_box.Io.Codec.One.{one, one-RoundTrips, one-serialize}
use kyrin_box.Io.Database.Tests.{memory}
use kyrin_box.Server.Base.{Request, server_get_postdata, server_send_reply_ok}
use kyrin_box.Server.Example.{request}
use kyrin_box.Chunk.Files.{
  UploadChunkFileRequest, DownloadChunkFileRequest, FileSystem, replied, fits, chunk_path,
  upload_chunk_file, download_chunk_file,
}
use kyrin_box.Chunk.Files.RoundTrip.{IsFileSystem, download-upload}

abbrev Files : Type 0
Files = Bytes → Option Bytes

-- The first bytes of a file, with zeros behind its end.
abbrev front : ℕ → Bytes → Bytes
front zero f = []
front (suc n) [] = 0 ∷ front n []
front (suc n) (c ∷ f) = c ∷ front n f

abbrev write_at : Files → Bytes → ℤ → Bytes → Option Files
write_at fs path (negsuc offset) content = none
write_at fs path (pos offset) content = elim (fs path) [
  | none ↦ none
  | some f ↦ some (λ p.
      if eq_bytes path p
      then some (front offset f ++ (content ++ drop (offset + length content) f))
      else fs p)
]

abbrev read_at : Files → Bytes → ℤ → ℕ → Option (ℤ × Bytes)
read_at fs path (negsuc offset) n = none
read_at fs path (pos offset) n = elim (fs path) [
  | none ↦ none
  | some f ↦ some (pos offset, take n (drop offset f))
]

abbrev system : FileSystem
system = record {
  Fs = Files;
  is_dir = λ fs dir. true;
  mkdir = λ fs dir. fs;
  create = λ fs path. some (λ p. if eq_bytes path p then some [] else fs p);
  write_at = write_at;
  read_at = read_at;
}

drop-front : (n : ℕ) (f g : Bytes) → drop n (front n f ++ g) ≡ g
drop-front zero f g = refl
drop-front (suc n) [] g = drop-front n [] g
drop-front (suc n) (c ∷ f) g = drop-front n f g

reads :
    (fs fs' : Files) (path content : Bytes) (offset n : ℕ)
    → write_at fs path (pos offset) content ≡ some fs'
    → (rest : Bytes) × (read_at fs' path (pos offset) n
        ≡ some (pos offset, take n (content ++ rest)))
reads fs fs' path content offset n e = elim (Option-cases (fs path)) [
  | inl out ↦ let bad = rw (out, write_at) at e in absurd (ground arith)
  | inr (f, there) ↦
      let rest = drop (offset + length content) f in
      let wrote = some-injective _ _ (rw (there, write_at) at e) in
      let same : eq_bytes path path ≡ true = (eq_bytes_iff path path).1 refl in
      (rest, rw (sym wrote, read_at, same, drop-front offset f (content ++ rest)) refl)
]

system-IsFileSystem : IsFileSystem system
system-IsFileSystem = record { reads = reads }

abbrev sent : ℕ → Bytes → UploadChunkFileRequest
sent offset chunk = record {
  account = text "me";
  file_name = text "file";
  chunk = chunk;
  offset = pos offset;
}

abbrev asked : ℕ → DownloadChunkFileRequest
asked offset = record { account = text "me"; file_name = text "file"; offset = pos offset }

abbrev same_upload : UploadChunkFileRequest → UploadChunkFileRequest → Bool
same_upload m k =
    eq_bytes m.account k.account
    && (eq_bytes m.file_name k.file_name && (eq_bytes m.chunk k.chunk && eq_ℤ m.offset k.offset))

same_upload_lem : (m k : UploadChunkFileRequest) → same_upload m k ≡ true → m ≡ k
same_upload_lem m k e =
    let (account, e1) = and-true (eq_bytes m.account k.account) _ e in
    let (file_name, e2) = and-true (eq_bytes m.file_name k.file_name) _ e1 in
    let (chunk, offset) = and-true (eq_bytes m.chunk k.chunk) _ e2 in
    joined m.account k.account m.file_name k.file_name m.chunk k.chunk m.offset k.offset
      ((eq_bytes_iff m.account k.account).0 account)
      ((eq_bytes_iff m.file_name k.file_name).0 file_name) ((eq_bytes_iff m.chunk k.chunk).0 chunk)
      (eq_ℤ_lem m.offset k.offset offset)
  where
    joined :
        (a a' b b' c c' : Bytes) (d d' : ℤ)
        → a ≡ a'
        → b ≡ b'
        → c ≡ c'
        → d ≡ d'
        → ◌≡◌ {A = UploadChunkFileRequest}
            record { account = a; file_name = b; chunk = c; offset = d }
            record { account = a'; file_name = b'; chunk = c'; offset = d' }
    joined a a' b b' c c' d d' p q r s = rw (p, q, r, s) refl

abbrev same_download : DownloadChunkFileRequest → DownloadChunkFileRequest → Bool
same_download m k =
    eq_bytes m.account k.account && (eq_bytes m.file_name k.file_name && eq_ℤ m.offset k.offset)

same_download_lem : (m k : DownloadChunkFileRequest) → same_download m k ≡ true → m ≡ k
same_download_lem m k e =
    let (account, e1) = and-true (eq_bytes m.account k.account) _ e in
    let (file_name, offset) = and-true (eq_bytes m.file_name k.file_name) _ e1 in
    joined m.account k.account m.file_name k.file_name m.offset k.offset
      ((eq_bytes_iff m.account k.account).0 account)
      ((eq_bytes_iff m.file_name k.file_name).0 file_name) (eq_ℤ_lem m.offset k.offset offset)
  where
    joined :
        (a a' b b' : Bytes) (d d' : ℤ)
        → a ≡ a'
        → b ≡ b'
        → d ≡ d'
        → ◌≡◌ {A = DownloadChunkFileRequest}
            record { account = a; file_name = b; offset = d }
            record { account = a'; file_name = b'; offset = d' }
    joined a a' b b' d d' p q s = rw (p, q, s) refl

same_upload_refl : (m : UploadChunkFileRequest) (n : ℕ) → m.offset ≡ pos n → same_upload m m ≡ true
same_upload_refl m n e =
    rw
      (
        (eq_bytes_iff m.account m.account).1 refl,
        (eq_bytes_iff m.file_name m.file_name).1 refl,
        (eq_bytes_iff m.chunk m.chunk).1 refl,
        e,
      )
      (ground arith)

All-replicate : (n c : ℕ) → c < 256 → All (λ c. c < 256) (replicate n c)
All-replicate zero c h = tt
All-replicate (suc n) c h = (h, All-replicate n c h)

abbrev post : Request
post = request [] (base64_encode (text "1"))

abbrev uploads : Codec UploadChunkFileRequest
uploads = one same_upload (sent 1024 (base64_encode (replicate 1024 7)))

abbrev downloads : Codec DownloadChunkFileRequest
downloads = one same_download (asked 1024)

abbrev fresh : Files
fresh path = some []

abbrev written : Files
written p =
    if eq_bytes (text "./me/file.chunkfile") p
    then some
        (front 1024 [] ++ (replicate 1024 7 ++ drop (1024 + length {A = ℕ} (replicate 1024 7)) []))
    else fresh p

download-upload_example :
    (upload_chunk_file memory system uploads post [] fresh
      ≡ replied (server_send_reply_ok post (text "OK")) [] written)
    × (download_chunk_file memory system downloads post [] written
        ≡ replied (server_send_reply_ok post (base64_encode (replicate 1024 7))) [] written)
unfolding server_get_postdata base64_encode chunk_path fits eq_bytes c_str
download-upload_example =
    download-upload memory system uploads downloads system-IsFileSystem post post (text "me")
      (text "file") (text "1") (text "1") (text "./me/file.chunkfile") (replicate 1024 7) 1024 []
      fresh written
      (one-RoundTrips same_upload (sent 1024 (base64_encode (replicate 1024 7))) same_upload_lem)
      (one-RoundTrips same_download (asked 1024) same_download_lem)
      (one-serialize same_upload (sent 1024 (base64_encode (replicate 1024 7)))
        (same_upload_refl (sent 1024 (base64_encode (replicate 1024 7))) 1024 refl))
      refl (omega arith) (omega arith) (All-replicate 1024 7 (omega arith)) refl refl refl refl refl
