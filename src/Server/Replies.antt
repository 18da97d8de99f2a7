-- ===== src/Server/Replies.antt =====
-- What can be told from a reply.
use kyrin_box.Prelude.{◌≢◌, some, Bytes, inl, inr, Bool-cases, arith}
use kyrin_box.Server.Base.{Request, ok_reply, server_send_reply_bad}

pub reply_bad-ne :
    (req : Request) (msg reply : Bytes) → server_send_reply_bad req msg ≢ some (ok_reply reply)
unfolding server_send_reply_bad
reply_bad-ne req msg reply h = elim (Bool-cases req.buffer) [
  | inl buffer ↦ let bad = rw buffer at h in absurd (ground arith)
  | inr full ↦ let bad = rw full at h in absurd (ground arith)
]
