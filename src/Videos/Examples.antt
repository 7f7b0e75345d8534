-- ===== src/Videos/Examples.antt =====
-- A concrete job, from its request to its video.
use gemini_web2api_go_browse.Prelude.{
  ◌≡◌, ◌≢◌, refl, ◌++◌, true, List, [], ◌∷◌, some, arith, get_elem?, codes, text_eq, text_eq_iff,
}
use gemini_web2api_go_browse.CookiePool.{trim_space}
use gemini_web2api_go_browse.Models.{model_named, resolve_model}
use gemini_web2api_go_browse.Videos.{
  queued, in_progress, runs, VideoJob, Cell, create_video, job_created, artifacts, fails, Event,
  creates, starts, ends, step, run, no_jobs, get_video_job,
}
use gemini_web2api_go_browse.Videos.Steps.{is_final}
use gemini_web2api_go_browse.Videos.Final.{JobOutcome, run-JobOutcome}
use gemini_web2api_go_browse.Videos.Polled.{Spares}
use gemini_web2api_go_browse.Videos.Ends.{create_video-ends}

abbrev cat : VideoJob
cat = record {
  id = codes "video_1f";
  model = codes "gemini-video";
  status = queued;
  created_at = 1000;
  prompt = codes "a cat";
  error = [];
  mp4 = [];
  mime = [];
}

cat_accepted : (create_video 1000 (codes "1f") (codes "a cat") [] no_jobs).0 ≡ job_created cat
unfolding create_video trim_space model_named text_eq
cat_accepted = refl

-- What comes in between: another request, and the two steps of the first job.
other_id : codes "video_" ++ codes "2a" ≢ cat.id
unfolding text_eq
other_id = λ e.
    absurd
      (let f : text_eq (codes "video_2a") (codes "video_1f") ≡ true = (text_eq_iff _ _).1 e in cc)

create_video-ends_example :
    (k : VideoJob) × (get_video_job cat.id (
        run
          (creates 1500 (codes "2a") (codes "a dog") []
            ∷ starts 0
            ∷ ends 0 [] (fails (codes "EOF"))
            ∷ [])
          (create_video 1000 (codes "1f") (codes "a cat") [] (run [] no_jobs)).1)
      ≡ some k)
    × (k.id ≡ cat.id)
    × (is_final k.status ≡ true)
unfolding run Spares
create_video-ends_example =
    create_video-ends [] (creates 1500 (codes "2a") (codes "a dog") [] ∷ []) [] [] 1000 (codes "1f")
      (codes "a cat") [] cat 0 [] (fails (codes "EOF")) cat_accepted refl
      ((omega arith, other_id), (tt, (tt, tt)))

abbrev cat_running : Cell
cat_running = record { job = record cat { status = in_progress }; turn = runs }

abbrev cat_history : List Event
cat_history = creates 1000 (codes "1f") (codes "a cat") [] ∷ starts 0 ∷ []

cat_runs : get_elem? (run cat_history no_jobs).heap 0 ≡ some cat_running
unfolding run step create_video trim_space model_named text_eq
cat_runs = refl

run-JobOutcome_example :
    (d : Cell) × (get_elem?
        (run
          (ends 0 [] (artifacts []) ∷ starts 0 ∷ [])
          (step (ends 0 [] (fails (codes "EOF"))) (run cat_history no_jobs))).heap
        0
      ≡ some d)
    × (d.job.id ≡ cat.id)
    × JobOutcome (resolve_model [] (codes "gemini-video")) (fails (codes "EOF")) d.job
run-JobOutcome_example =
    run-JobOutcome cat_history (ends 0 [] (artifacts []) ∷ starts 0 ∷ []) 0 cat_running []
      (fails (codes "EOF")) cat_runs refl
