-- ===== src/Master/Server.antt =====
-- server/master/kyrin_master_server.cc: which handler a request to a master goes to.
use kyrin_box.Prelude.{Option, none, some, List}
use kyrin_box.Common.Cluster.{Cluster}
use kyrin_box.Io.Codec.{Codec}
use kyrin_box.Io.Database.{LevelDb}
use kyrin_box.Io.HttpClient.{Curl}
use kyrin_box.Server.Base.{Request, Reply}
use kyrin_box.Server.Identity.{Verdict, pass, rejected}
use kyrin_box.Chunk.Status.{ClusterStatus}
use kyrin_box.Master.Sentinel.{Sentinel, get_status, get_leader}
use kyrin_box.Master.Oplog.{Codecs, Dbs}
use kyrin_box.Master.ConfirmOplog
use kyrin_box.Master.GetOplog
use kyrin_box.Master.UploadFile

pub data Endpoint : Type 0 where
  upload_file confirm_oplog get_oplog : Endpoint

module _ (L : LevelDb) (codecs : Codecs) (status_codec : Codec ClusterStatus) where
  -- `process_upload_file_request`, behind the filter, whose result is given.
  pub process_upload_file :
      Cluster
      → UploadFile.World
      → Option Verdict
      → Sentinel
      → Request
      → Dbs L
      → UploadFile.Handled L codecs status_codec
  process_upload_file cluster w verdict sentinel req s = elim verdict [
    | none ↦ UploadFile.undefined
    | some v ↦ elim v [
      | pass h ↦
          UploadFile.handle_request L codecs status_codec cluster w (get_status sentinel)
            cluster.kbid req s
      | rejected h reply ↦ UploadFile.replied reply s
    ]
  ]

  -- `process_confirm_oplog_request`, which no filter stands before.
  pub process_confirm_oplog :
      Cluster
      → Sentinel
      → List Curl
      → Request
      → ConfirmOplog.Confirm L codecs
      → ConfirmOplog.Handled L codecs
  process_confirm_oplog cluster sentinel curls req s =
      ConfirmOplog.handle_request L codecs cluster (get_status sentinel) (get_leader sentinel) curls
        req s

  -- `process_get_oplog_request`
  pub process_get_oplog : L.Db → Request → Option Reply × L.Db
  process_get_oplog db req = GetOplog.handle_request L codecs db req
