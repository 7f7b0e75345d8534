-- ===== src/Videos.antt =====
-- internal/app/videos.go: the jobs of asynchronous videos. A job is an object that its goroutine and the
-- table share: the objects are a list in the order of their creation, and a pointer is a position in it.
-- The goroutine of a job takes two steps, each under the lock of the table: `starts` and `ends`. What
-- the call of the model comes to is an argument of the second, and the errors of resolveModel are
-- shortened. The JSON of requests and replies and the log of requests are not modelled; the reply to a
-- creation is taken to be the job as it was put.
mod Ends
mod Turns
mod Polled
mod Steps
mod Final
mod Examples
use gemini_web2api_go_browse.Prelude.{
  ℕ, ◌+◌, ◌*◌, Bool, true, false, not, ◌&&◌, ◌||◌, List, [], ◌∷◌, ◌++◌, Option, none, some, ltb,
  ◌==◌, if◌then◌else◌, length, keep, get_elem?, zero, suc, is_empty, has_prefix, drop, index_byte,
  take, Text, codes, text_eq,
}
use gemini_web2api_go_browse.CookiePool.{CookieAccount, trim_space}
use gemini_web2api_go_browse.Models.{
  ModelConfig, models, model_named, tool_video, Resolved, resolved, needs_account, unknown_model,
  resolve_model,
}

pub data Status : Type 0 where
  queued : Status
  in_progress : Status
  completed : Status
  failed : Status

pub record VideoJob : Type 0 where
  pub id : Text
  pub model : Text
  pub status : Status
  pub created_at : ℕ
  pub prompt : Text
  pub error : Text
  pub mp4 : Text
  pub mime : Text

-- Where the goroutine of a job stands.
pub data Turn : Type 0 where
  waits : Turn
  runs : Turn
  returned : Turn

pub record Cell : Type 0 where
  pub job : VideoJob
  pub turn : Turn

pub record Videos : Type 0 where
  pub heap : List Cell
  pub jobs : List (Text × ℕ)

pub update_cell : ℕ → (Cell → Cell) → List Cell → List Cell
update_cell p f [] = []
update_cell zero f (c ∷ cs) = f c ∷ cs
update_cell (suc p) f (c ∷ cs) = c ∷ update_cell p f cs

outdated : ℕ → Option Cell → Bool
outdated now none = false
outdated now (some c) = ltb (c.job.created_at + 2 * 3600) now

-- The entry of a new job is the only one under its id; those of jobs older than two hours go.
put_video_job : ℕ → Text → ℕ → List Cell → List (Text × ℕ) → List (Text × ℕ)
unfolding outdated
put_video_job now id p heap jobs =
    (id, p) ∷ keep (λ e. not (outdated now (get_elem? heap e.1)) && not (text_eq e.0 id)) jobs

pub find_job : Text → List (Text × ℕ) → Option ℕ
find_job id [] = none
find_job id ((k, p) ∷ jobs) = if text_eq k id then some p else find_job id jobs

job_at : List Cell → Option ℕ → Option VideoJob
job_at heap none = none
job_at heap (some p) = elim (get_elem? heap p) [ none ↦ none | some c ↦ some c.job ]

unfoldable pub get_video_job : Text → Videos → Option VideoJob
unfolding find_job job_at
get_video_job id w = job_at w.heap (find_job id w.jobs)

pub data Created : Type 0 where
  missing_prompt : Created
  not_a_video_model : Created
  job_created : VideoJob → Created

is_video_model : Option ModelConfig → Bool
is_video_model none = false
is_video_model (some mc) = mc.tool == tool_video

new_job : ℕ → Text → Text → Text → VideoJob
new_job now random model prompt = record {
  id = codes "video_" ++ random;
  model = model;
  status = queued;
  created_at = now;
  prompt = prompt;
  error = [];
  mp4 = [];
  mime = [];
}

-- Fields of the body that are missing or no text are empty.
unfoldable pub create_video : ℕ → Text → Text → Text → Videos → Created × Videos
unfolding put_video_job is_video_model new_job
create_video now random prompt asked w =
    let model = if is_empty asked then codes "gemini-video" else asked in
    if is_empty (trim_space prompt)
    then (missing_prompt, w)
    else if not (is_video_model (model_named model models))
    then (not_a_video_model, w)
    else let j = new_job now random model prompt in
      (
        job_created j,
        record {
          heap = w.heap ++ record { job = j; turn = waits } ∷ [];
          jobs = put_video_job now j.id (length w.heap) w.heap w.jobs;
        },
      )

finish_video_job : Text → Text → Text → VideoJob → VideoJob
finish_video_job mp4 mime error j =
    if not (is_empty error) then record j { status = failed; error = error } else record j {
      mp4 = mp4;
      mime = if is_empty mime then codes "video/mp4" else mime;
      status = completed;
    }

-- What callGemini comes to: a panic, an error, or the artifacts of its result.
pub data Answer : Type 0 where
  panics : Text → Answer
  fails : Text → Answer
  artifacts : List (Text × Text) → Answer

finish_by_answer : Answer → VideoJob → VideoJob
unfolding finish_video_job
finish_by_answer (panics e) j = finish_video_job [] [] (codes "internal error: " ++ e) j
finish_by_answer (fails e) j = finish_video_job [] [] e j
finish_by_answer (artifacts []) j = finish_video_job [] [] (codes "no video produced") j
finish_by_answer (artifacts ((mp4, mime) ∷ more)) j = finish_video_job mp4 mime [] j

-- The rest of runVideoJob, once the job is in progress.
finish_run : Resolved → Answer → VideoJob → VideoJob
unfolding finish_video_job finish_by_answer
finish_run (resolved name mc) a j = finish_by_answer a j
finish_run (needs_account name) a j = finish_video_job [] [] (codes "needs an account: " ++ name) j
finish_run (unknown_model name) a j = finish_video_job [] [] (codes "unknown model: " ++ name) j

pub start_on : Turn → Cell → Cell
start_on waits c = record { job = record c.job { status = in_progress }; turn = runs }
start_on runs c = c
start_on returned c = c

pub end_on : List CookieAccount → Answer → Turn → Cell → Cell
unfolding finish_run
end_on accounts a waits c = c
end_on accounts a runs c = record {
  job = finish_run (resolve_model accounts c.job.model) a c.job;
  turn = returned;
}
end_on accounts a returned c = c

-- One step of the program: a request that creates, or a step of the goroutine of a job. A goroutine
-- starts and ends once: a step that is not due changes nothing.
pub data Event : Type 0 where
  creates : ℕ → Text → Text → Text → Event
  starts : ℕ → Event
  ends : ℕ → List CookieAccount → Answer → Event

pub step : Event → Videos → Videos
unfolding start_on end_on update_cell
step (creates now random prompt model) w = (create_video now random prompt model w).1
step (starts p) w = record w { heap = update_cell p (λ c. start_on c.turn c) w.heap }
step (ends p accounts a) w = record w {
  heap = update_cell p (λ c. end_on accounts a c.turn c) w.heap;
}

pub run : List Event → Videos → Videos
run [] w = w
run (e ∷ es) w = run es (step e w)

abbrev pub no_jobs : Videos
no_jobs = record { heap = []; jobs = [] }

pub data ItemReply : Type 0 where
  not_found : ItemReply
  not_ready : Status → ItemReply
  content : Text → Text → ItemReply
  described : VideoJob → ItemReply

is_completed : Status → Bool
is_completed queued = false
is_completed in_progress = false
is_completed completed = true
is_completed failed = false

content_of : VideoJob → ItemReply
unfolding is_completed
content_of j =
    if not (is_completed j.status) || is_empty j.mp4
    then not_ready j.status
    else content j.mime j.mp4

item_of : Bool → Option VideoJob → ItemReply
unfolding content_of
item_of wants_content none = not_found
item_of wants_content (some j) = if wants_content then content_of j else described j

-- The path without /v1/videos/, cut at its first slash.
parts_of : Text → Option ℕ → Text × Bool
parts_of rest none = (rest, false)
parts_of rest (some i) = (take i rest, text_eq (drop (i + 1) rest) (codes "content"))

unfoldable pub handle_video_item : Text → Videos → ItemReply
unfolding item_of parts_of
handle_video_item path w =
    let rest = if has_prefix (codes "/v1/videos/") path then drop 11 path else path in
    let (id, wants_content) = parts_of rest (index_byte b'/' rest) in
    item_of wants_content (get_video_job id w)
