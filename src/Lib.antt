-- ===== src/Lib.antt =====
-- ByteBattles, a judge for programming contests: its asynchronous judging, from the job queue to the
-- verdict, and its web service with the accounts, the problems and the submissions.
--
-- The web service (api/app) registers users and gives them tokens. It stores a submission and pushes
-- its id to a list in Redis. A judge worker (judge/judge_worker) pops the id, takes a warm sandbox
-- from another list, runs the code against the test cases in that container, and writes the verdict.
-- The orchestrator (judge/run.py) starts, stops and watches the workers; the sandbox manager
-- (judge/sandbox_manager/main.py) keeps the lists of warm sandboxes filled. Administrators create
-- problems from archives of test files, which go to the object store that the judge reads.
--
-- Modules and the code they model:
--   Base          shared names; Base.Text and Base.Number are Python's str and int as far as the
--                 program uses them; Base.Exec is a state with exceptions.
--   Enums         api/app/models/enums.py and judge/models.py.
--   Config        config.py: the settings that the judge computes with, and Config.Environment, what
--                 importing the file reads.
--   Services      the parameters: Docker, the object store, the connection of the database, codecs.
--   Executor      judge/judge_worker/executor.py, types.py: compile_c, compile_cpp, run_program, norm.
--   Redis         the lists and keys of Redis; judge/judge_worker/redis_queue.py and enqueue_job of
--                 api/app/utils/redis_utils.py.
--   Database      the rows of api/app/models/problem.py and submission.py, and queries over them.
--   World         what the judge's processes share; the session of judge/judge_worker/database.py.
--   Pipeline      judge/judge_worker/pipeline.py: process_submission and its parts.
--   Sandbox       judge/sandbox_manager/main.py: create_sandbox and clean_pool in one thread;
--                 Sandbox.Threads has maintain_pool and creator_worker under any schedule, and
--                 Sandbox.Threads.Run has run, whose main thread drives them.
--   Worker        judge/judge_worker/worker.py: a turn of its loop; Worker.Loop has the loop and run.
--   Orchestrator  judge/run.py.
--   Api.Http      how a route ends: a value, an HTTP exception, or any other exception.
--   Api.Accounts  the table of users of api/app/models/user.py, and the commits that change it.
--   Api.Tokens    api/app/utils/oauth2.py.
--   Api.Auth      api/app/routes/auth.py and api/app/utils/password_manager.py.
--   Api.Profiles  api/app/routes/users.py.
--   Api.Schemas   the validators of api/app/schemas/user.py.
--   Api.Backend   the parameters of the routes: the object store with its two buckets, uuid, and the
--                 connection of a session; `IsObjectStore` states what S3 documents.
--   Api.Site      what these routes share: objects, tables, Redis and users.
--   Api.Storage   api/app/core/storage.py.
--   Api.Submissions  api/app/routes/submissions.py: the listing; Api.Submissions.Create has the
--                 creation and the view of a submission.
--   Api.Problems  api/app/routes/problems.py: lists, views and tags; Api.Problems.Form the checks of
--                 an upload, Api.Problems.Upload the creation, Api.Problems.Removal the deletion.
--   KeySpace      the texts of the keys of Redis, and commands on them: worker.py, run.py,
--                 redis_queue.py and sandbox_manager/main.py of the judge, with names of config.py.
--   System        the parts together, on one database and one Redis: a history of events.
--   Tests         concrete services, and the theorems at concrete inputs.
--
-- State and failure. A method that changes state and may raise is a function `Exec S A`, from a state
-- to a result or an exception and the state that it leaves. Services have a state of their own that
-- nothing is known of, and every call of theirs may raise; so the theorems hold for every behaviour
-- of Docker and the store, and for every commit, flush and load behind a commit that raises. Redis is taken to be up, but for the pop of the
-- job list, whose exception is an argument of a turn.
--
-- Numbers are natural numbers. Times are in one unit, that of the settings. `pending` of the sandbox
-- manager is a number that would stop at 0 where Python goes below.
-- An exit code that Docker does not know is `none`.
--
-- Texts are lists of code points. `split()` and `strip()` cut at the code points of `str.isspace`.
-- `int` and `int(float())` read digits, and digits with a fraction, which is what /usr/bin/time
-- prints; every other text is a ValueError.
--
-- Fuel. `clean_rounds` runs as many rounds as the queue is long, since a round takes one entry, and
-- `str` as many as the number, which is more than it has digits. All other recursion is structural.
--
-- Concurrency. The threads of the sandbox manager are steps of a machine that any schedule may
-- interleave. A KeyboardInterrupt comes between two calls of maintain_pool, or in the finally once the
-- event is set, where it ends run. A worker's turn and an orchestrator's turn are functions; what the other processes do
-- meanwhile comes in between turns, as an arbitrary Redis state and an arbitrary set of survivors.
-- In `System` a request, a turn of a worker or of the orchestrator is one event, in any order, so two
-- turns do not overlap, but for a worker that takes a submission and goes no further.
-- A name such as `worker:3:heartbeat` is the field of `Redis` for such keys, at 3; `KeySpace` has the
-- texts.
--
-- The web service. PyJWT and pwdlib are records of functions; `IsJwt` and `IsHash` state what they
-- document. A route is a function of the state that it works on and of the time; a raise rolls the
-- session back. Requests follow one another, but for `create_problem`: what other requests do while
-- it awaits the archive is a function on the state, `others`; in `System` the part of it before the
-- archive is read changes nothing, and the part behind is the event. A commit or a flush may raise
-- besides for a key that is taken, and so may the load of rows that the commit has made expire. For
-- the table of users these outcomes are an argument, `Connection`; the deletion of an account is the
-- event of a commit that returns. A listing of S3 may be truncated, and a deletion of several keys
-- names those that it did not delete; the code looks at neither, so the theorems on folders name them.
-- A query before a commit is taken to return: a request where it raises changes no table.
--
-- Not modelled: logging, sleeping, the set-up of clients and of the web framework, the validation of
-- e-mail addresses, and the file formats behind zipfile and json.
pub mod Api
pub mod Base
pub mod Enums
pub mod Config
pub mod Services
pub mod Executor
pub mod Redis
pub mod Database
pub mod World
pub mod Pipeline
pub mod Sandbox
pub mod Worker
pub mod Orchestrator
pub mod KeySpace
pub mod System
mod Tests
