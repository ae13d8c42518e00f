-- ===== src/Executor.antt =====
-- judge/judge_worker/executor.py and judge/judge_worker/types.py.
pub mod Output
pub mod Verdicts
pub mod Stats
use byte_battles.Base.{
  ℕ, ◌*◌, min, Option, none, some, List, [], ◌∷◌, ◌++◌, Bool, true, false, ◌||◌, ◌==◌,
  if◌then◌else◌, split_last,
}
use byte_battles.Base.Text.{Text, codes, split, split_on, text_eq}
use byte_battles.Base.Number.{str, int, int_float}
use byte_battles.Base.Exec.{Exec, Result, ok, err, Fault, pure, lift, ◌>>=◌, ◌>>◌}
use byte_battles.Enums.{Language, Verdict, file_name, is_accepted}
use byte_battles.Config.{Config}
use byte_battles.Services.{Services, ExecResult, Bytes}
use Output.{norm}

pub record CompileResult : Type 0 where
  pub ok : Bool
  pub output : Text
  pub exit_code : ℕ

-- `run_program`, the only place that builds one, gives every field.
pub record RunResult : Type 0 where
  pub ok : Bool
  pub verdict : Verdict
  pub output : Text
  pub exit_code : Option ℕ
  pub runtime_ms : ℕ
  pub memory_kb : ℕ

-- A list's `xs[0]` and `xs[1]`.
abbrev item_0 : List Text → Result Text
item_0 [] = err Fault.index_error
item_0 (x ∷ xs) = ok x

abbrev item_1 : List Text → Result Text
item_1 (x ∷ y ∷ xs) = ok y
item_1 _ = err Fault.index_error

-- `xs[-2]`
abbrev pub last_but_one : List Text → Result Text
last_but_one xs = elim (split_last xs) [
  | none ↦ err Fault.index_error
  | some (init, _) ↦ elim (split_last init) [ none ↦ err Fault.index_error | some (_, x) ↦ ok x ]
]

infixl 10 ◌>>=ᴿ◌
abbrev pub ◌>>=ᴿ◌ : {A B : Type 0} → Result A → (A → Result B) → Result B
ok a >>=ᴿ f = f a
err e >>=ᴿ f = err e

-- The two numbers of the last complete line of stderr, `%e %M`: elapsed seconds without their
-- fraction, and kilobytes.
unfoldable pub read_stats : Text → Result (ℕ × ℕ)
read_stats stderr = last_but_one (split_on 10 stderr) >>=ᴿ λ line.
    item_0 (split line) >>=ᴿ λ elapsed. int_float elapsed >>=ᴿ λ seconds.
    item_1 (split line) >>=ᴿ λ memory. int memory >>=ᴿ λ kb. ok (seconds, kb)

-- `exit_code in (124, 137)`
unfoldable is_timeout : Option ℕ → Bool
is_timeout none = false
is_timeout (some n) = n == 124 || n == 137

-- `exit_code != 0`; a code that Docker does not know is `None`.
unfoldable is_failure : Option ℕ → Bool
is_failure none = true
is_failure (some n) = if n == 0 then false else true

-- The verdict of one run, by the order of the tests.
unfoldable pub run_verdict : ℕ → ℕ → Option ℕ → Text → Text → Verdict
unfolding is_timeout is_failure
run_verdict memory_kb_used memory_limit_kb exit_code stdout expected_output =
    if memory_kb_used == memory_limit_kb
    then Verdict.memory_limit_exceeded
    else if is_timeout exit_code
    then Verdict.time_limit_exceeded
    else if is_failure exit_code
    then Verdict.runtime_error
    else if text_eq (norm stdout) (norm expected_output)
    then Verdict.accepted
    else Verdict.wrong_answer

-- The `RunResult` made of the measured numbers.
unfoldable pub run_result : ℕ → ℕ → Option ℕ → Text → Text → ℕ × ℕ → RunResult
run_result time_limit_sec memory_limit_kb exit_code stdout expected_output (seconds, kb) =
    let memory_kb_used = min kb memory_limit_kb in
    let verdict = run_verdict memory_kb_used memory_limit_kb exit_code stdout expected_output in
    record {
      ok = is_accepted verdict;
      verdict = verdict;
      output = stdout;
      exit_code = exit_code;
      runtime_ms = min seconds (time_limit_sec * 1000);
      memory_kb = memory_kb_used;
    }

-- `b"".join` of the chunks of one stream.
unfoldable pub stream : ℕ → List (ℕ × Bytes) → Bytes
stream stream_id [] = []
stream stream_id ((i, payload) ∷ frames) =
    let rest = stream stream_id frames in if i == stream_id then payload ++ rest else rest

abbrev inner_command : Language → Text → Text
inner_command Language.c executable_path = executable_path
inner_command Language.cpp executable_path = executable_path
inner_command Language.python executable_path = codes "python3 " ++ executable_path

-- The command of `run_program`. Its last `else` raises for no member of `Language`.
unfoldable pub run_command : Language → Text → ℕ → List Text
run_command language executable_path time_limit_sec =
    codes "/bin/sh"
    ∷ codes "-lc"
    ∷ (codes "/usr/bin/time -f '%e %M' timeout -s KILL "
        ++ str time_limit_sec
        ++ codes "s sh -c \""
        ++ inner_command language executable_path
        ++ codes " 2>/dev/null\"")
    ∷ []

abbrev or_empty : Option Bytes → Bytes
or_empty none = []
or_empty (some b) = b

module _ (env : Services) (config : Config) where
  open env use {State, exec_run, exec_create, exec_start, send_all, frames_iter, close_socket}
  open env use {exec_inspect, put_archive, encode, decode_replace, tar_file}
  open config use {workspace_dir}

  pub container_exec : Text → List Text → Exec State ExecResult
  container_exec container cmd = exec_run container cmd workspace_dir

  -- The tail that `compile_c` and `compile_cpp` share.
  unfoldable pub compile_result : ExecResult → CompileResult
  compile_result result = record {
    ok = result.exit_code == 0;
    output = elim result.output [
      | none ↦ decode_replace [] ++ decode_replace []
      | some (stdout_b, stderr_b) ↦
          decode_replace (or_empty stdout_b) ++ decode_replace (or_empty stderr_b)
    ];
    exit_code = result.exit_code;
  }

  unfoldable pub compile_c : Text → Exec State CompileResult
  unfolding container_exec
  compile_c container = do
    result ← container_exec container (
        codes "/bin/sh"
        ∷ codes "-lc"
        ∷ (codes "gcc -O2 -pipe -static -s -o "
            ++ workspace_dir
            ++ codes "/main.out "
            ++ workspace_dir
            ++ codes "/main.c 2>&1")
        ∷ [])
    pure (compile_result result)

  unfoldable pub compile_cpp : Text → Exec State CompileResult
  unfolding container_exec
  compile_cpp container = do
    result ← container_exec container (
        codes "/bin/sh"
        ∷ codes "-lc"
        ∷ (codes "g++ -O2 -std=c++17 -pipe -static -s -o "
            ++ workspace_dir
            ++ codes "/main.out "
            ++ workspace_dir
            ++ codes "/main.cpp 2>&1")
        ∷ [])
    pure (compile_result result)

  unfoldable pub run_program : Text → Language → Text → Text → Text → ℕ → ℕ → Exec State RunResult
  run_program container language executable_path input_data expected_output time_limit_sec
        memory_limit_kb =
      do
        exec_id ← exec_create container (run_command language executable_path time_limit_sec)
        sock ← exec_start exec_id
        send_all sock (encode input_data)
        frames ← frames_iter sock
        close_socket sock
        exit_code ← exec_inspect exec_id
        let stdout_output = decode_replace (stream 1 frames)
        let stderr_output = decode_replace (stream 2 frames)
        stats ← lift (read_stats stderr_output)
        pure (
            run_result time_limit_sec memory_limit_kb exit_code stdout_output expected_output stats)

  unfoldable pub copy_code_to_container : Text → Language → Bytes → Exec State Unit
  copy_code_to_container container language code =
      put_archive container workspace_dir (tar_file (file_name language) code)
