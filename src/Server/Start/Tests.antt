-- ===== src/Server/Start/Tests.antt =====
-- A master on a system that grants every call.
use kyrin_box.Prelude.{
  ℕ, ◌+◌, ◌≡◌, ◌⊎◌, refl, inl, inr, true, Option, none, some, List, [], ◌∷◌, Bytes, eq_bytes,
  if◌then◌else◌, text, arith,
}
use kyrin_box.Common.Decimal.{scan_digits, is_digit}
use kyrin_box.Common.Cluster.{
  Cluster, ConfigMap, master, master_config, find, get_config, get_number, atoi,
}
use kyrin_box.Common.Configs.Master.{
  upload_file_port, upload_file_backlog, get_oplog_port, get_oplog_backlog, confirm_oplog_port,
  confirm_oplog_backlog, server_threads,
}
use kyrin_box.Common.Configs.Getters.{get_master_confirm_oplog_port, get_master_get_oplog_port}
use kyrin_box.Master.Server.{Endpoint, upload_file, confirm_oplog, get_oplog}
use kyrin_box.Server.Setup.{Os, LibEvent, initialize_socket, open_socket}
use kyrin_box.Server.Setup.Listening.{Facts, IsOs}
use kyrin_box.Server.Setup.Serving.{View, IsLibEvent, Serves}
use kyrin_box.Server.Start.Master.{Sockets, server_initialize}
use kyrin_box.Master.Sentinel.{Sentinel, follower, consensus}
use kyrin_box.Server.Start.Programs.{run_master, run_master-Serves}

-- The next socket, and what the earlier calls did.
record System : Type 0 where
  pub next : ℕ
  pub ports : List (ℕ × ℕ)
  pub listening : List ℕ
  pub nonblocking : List ℕ

abbrev system : Os
system = record {
  State = System;
  Fd = ℕ;
  socket = λ st. (st.next, record st { next = st.next + 1 });
  setsockopt = λ st fd. (true, st);
  bind = λ st fd port. (true, record st { ports = (fd, port) ∷ st.ports });
  listen = λ st fd backlog. (true, record st { listening = fd ∷ st.listening });
  get_flags = λ st fd. some 2;
  set_flags = λ st fd flags. (true, record st { nonblocking = fd ∷ st.nonblocking });
  o_nonblock = 2048;
  close = λ st fd. st;
}

abbrev HasPort : ℕ → ℕ → List (ℕ × ℕ) → Type 0
HasPort fd port [] = ⊥
HasPort fd port ((f, p) ∷ l) = (f ≡ fd) × (p ≡ port) ⊎ HasPort fd port l

abbrev Has : ℕ → List ℕ → Type 0
Has fd [] = ⊥
Has fd (f ∷ l) = (f ≡ fd) ⊎ Has fd l

abbrev facts : Facts system
facts = record {
  bound = λ st fd port. HasPort fd port st.ports;
  listens = λ st fd. Has fd st.listening;
  nonblocking = λ st fd. Has fd st.nonblocking;
}

system-IsOs : IsOs system facts
system-IsOs = record {
  socket_keeps =
      λ st. record { bound = λ fd port h. h; listens = λ fd h. h; nonblocking = λ fd h. h };
  setsockopt_keeps =
      λ st fd. record { bound = λ fd port h. h; listens = λ fd h. h; nonblocking = λ fd h. h };
  bind_keeps = λ st fd port. record {
    bound = λ fd port h. inr h;
    listens = λ fd h. h;
    nonblocking = λ fd h. h;
  };
  listen_keeps = λ st fd n. record {
    bound = λ fd port h. h;
    listens = λ fd h. inr h;
    nonblocking = λ fd h. h;
  };
  set_flags_keeps = λ st fd flags. record {
    bound = λ fd port h. h;
    listens = λ fd h. h;
    nonblocking = λ fd h. inr h;
  };
  bind_binds = λ st fd port h. inl (refl, refl);
  listen_listens = λ st fd n h. inl refl;
  set_flags_sets = λ st fd flags h. inl refl;
}

record Http : Type 0 where
  pub callbacks : Bytes → Option Endpoint
  pub sockets : List ℕ

abbrev libevent : LibEvent ℕ Endpoint
libevent = record {
  Evhttp = Http;
  new = record { callbacks = λ path. none; sockets = [] };
  set_cb = λ h path endpoint. record h {
    callbacks = λ other.
        if eq_bytes path other
        then some (elim (h.callbacks path) [ none ↦ endpoint | some first ↦ first ])
        else h.callbacks other;
  };
  accept_socket = λ h fd. record h { sockets = fd ∷ h.sockets };
}

abbrev view : View libevent
view = record { callback = λ h path. h.callbacks path; accepted = λ h. h.sockets }

libevent-IsLibEvent : IsLibEvent libevent view
libevent-IsLibEvent = record {
  new_callback = λ path. refl;
  new_accepted = refl;
  set_callback = λ h path other endpoint. refl;
  set_accepted = λ h path endpoint. refl;
  accept_callback = λ h fd path. refl;
  accept_accepted = λ h fd. refl;
}

abbrev config : ConfigMap
config =
    (text "MasterConfirmOplogBacklog", text "64")
    ∷ ((text "MasterConfirmOplogPort", text "7079")
        ∷ ((text "MasterGetOplogBacklog", text "64")
            ∷ ((text "MasterGetOplogPort", text "7078")
                ∷ ((text "MasterServerThreads", text "3")
                    ∷ ((text "MasterUploadFileBacklog", text "64")
                        ∷ ((text "MasterUploadFilePort", text "7077") ∷ []))))))

abbrev cluster : ℕ → Cluster
cluster kbid = record {
  server_type = master;
  kbid = kbid;
  master_server_count = 2;
  chunk_seed_count = 0;
  master_configs = config ∷ ([] ∷ []);
  chunk_configs = [];
  key_center_config = [];
}

abbrev fresh : System
fresh = record { next = 3; ports = []; listening = []; nonblocking = [] }

abbrev sockets : Sockets system
sockets = record { upload_file_fd = 3; get_oplog_fd = 4; confirm_oplog_fd = 5 }

abbrev running : System
running = record {
  next = 6;
  ports = (5, 7079) ∷ ((4, 7078) ∷ ((3, 7077) ∷ []));
  listening = 5 ∷ (4 ∷ (3 ∷ []));
  nonblocking = 5 ∷ (4 ∷ (3 ∷ []));
}

abbrev sentinel : Sentinel
sentinel = record { status = follower; leader_id = 0; vote = 0; epoch = 7 }

-- The second master's confirmations reach the first.
run_master-Serves_example :
    (s : Sentinel) × (workers : List Http) × (run_master system libevent sentinel true true
        (cluster 1)
        fresh
      ≡ some (s, workers, running))
    × (s.status ≡ consensus)
    × (s.leader_id ≡ 1)
    × Serves system facts libevent view running workers
        (upload_file_port config)
        (text "/UploadFile")
        upload_file
    × Serves system facts libevent view running workers
        (get_master_confirm_oplog_port (cluster 2) 1)
        (text "/ConfirmOplog")
        confirm_oplog
    × Serves system facts libevent view running workers
        (get_master_get_oplog_port (cluster 2) 1)
        (text "/GetOplog")
        get_oplog
unfolding server_initialize open_socket initialize_socket master_config upload_file_port
    upload_file_backlog get_oplog_port get_oplog_backlog confirm_oplog_port confirm_oplog_backlog
    server_threads find get_config get_number atoi scan_digits is_digit eq_bytes
run_master-Serves_example =
    run_master-Serves system facts libevent view (cluster 1) (cluster 2) config 1 3 sentinel true
      true sockets fresh running system-IsOs libevent-IsLibEvent refl refl refl (omega arith) refl
