-- ===== src/Services.antt =====
-- What the judge calls and does not implement: the Docker engine, the object store, the connection
-- to the database, and the codecs
-- of the Python runtime. Their state is a type of their own, threaded through every call, so that a
-- call may answer differently each time; a call may also raise.
use byte_battles.Base.{ℕ, Option, List}
use byte_battles.Base.Text.{Text}
use byte_battles.Base.Exec.{Exec, Result}

abbrev pub Bytes : Type 0
Bytes = List ℕ

-- The result of `container.exec_run(..., demux=True)`; `output` is `none` when it is no tuple.
pub record ExecResult : Type 0 where
  pub exit_code : ℕ
  pub output : Option (Option Bytes × Option Bytes)

-- The keyword arguments of `create_sandbox` that bound a sandbox. Those that are the same in every
-- call and carry no number (tty, detach, auto_remove) are left out.
pub record Limits : Type 0 where
  pub cap_drop : List Text
  pub network_mode : Text
  pub security_opt : List Text
  pub mem_limit : Text
  pub memswap_limit : Text
  pub pids_limit : ℕ
  pub user : Text

pub record Services : Type 1 where
  pub State : Type 0
  -- `client.containers.get(id)`; a container is known by its id from then on.
  pub get_container : Text → Exec State Unit
  pub stop_container : Text → Exec State Unit
  pub exec_run : Text → List Text → Text → Exec State ExecResult
  -- `client.containers.create(name=..., image=..., ...)`, with what `create_sandbox` limits it to, and
  -- the methods of the container. `uuid_hex` is `uuid.uuid4().hex`.
  pub uuid_hex : Exec State Text
  pub create_container : Text → Text → Limits → Exec State Text
  pub start_container : Text → Exec State Unit
  pub exec_plain : Text → List Text → Exec State ℕ
  pub remove_container : Text → Exec State Unit
  pub put_archive : Text → Text → Bytes → Exec State Unit
  -- The low-level exec interface, whose socket is known by the exec's id and a handle.
  pub exec_create : Text → List Text → Exec State Text
  pub exec_start : Text → Exec State Text
  pub send_all : Text → Bytes → Exec State Unit
  pub frames_iter : Text → Exec State (List (ℕ × Bytes))
  pub close_socket : Text → Exec State Unit
  pub exec_inspect : Text → Exec State (Option ℕ)
  -- `get_file` of the two buckets.
  pub get_submission_file : Text → Exec State Bytes
  pub get_testcase_file : Text → Exec State Bytes
  -- Opening a database session, and its `commit()`, which may fail and leaves nothing written then.
  pub begin : Exec State Unit
  pub commit : Exec State Unit
  -- The codecs: `s.encode()`, `b.decode("utf-8")`, `b.decode("utf-8", errors="replace")`, and a tar
  -- archive of one named file.
  pub encode : Text → Bytes
  pub decode : Bytes → Result Text
  pub decode_replace : Bytes → Text
  pub tar_file : Text → Bytes → Bytes
