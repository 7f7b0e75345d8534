-- ===== src/Videos/Final.antt =====
-- A job of a video never goes back: what a step leaves of each job, and what an end makes final.
use gemini_web2api_go_browse.Prelude.{
  ℕ, ◌≡◌, ◌≢◌, some_injective, refl, sym, ap, ◌∙◌, true, List, [], ◌∷◌, ◌++◌, some, get_elem?,
  subst, codes, Text, is_empty, if◌then◌else◌,
}
use gemini_web2api_go_browse.Videos.{
  completed, failed, VideoJob, Turn, waits, runs, returned, Cell, finish_video_job, Answer, panics,
  fails, artifacts, finish_by_answer, finish_run, end_on, Event, ends, step, run, no_jobs,
}
use gemini_web2api_go_browse.CookiePool.{CookieAccount}
use gemini_web2api_go_browse.Models.{
  Resolved, resolved, needs_account, unknown_model, resolve_model,
}
use gemini_web2api_go_browse.Videos.Turns.{get_elem?-update}
use gemini_web2api_go_browse.Videos.Steps.{is_returned, Sound, Kept, step-Kept, run-Kept}

abbrev FailsWith : Text → VideoJob → Type 0
FailsWith e j = (j.status ≡ failed) × (j.error ≡ e)

-- What a job has to be after its goroutine, by what came of its model and of the call. An error without a
-- text counts as none.
pub JobOutcome : Resolved → Answer → VideoJob → Type 0
JobOutcome (needs_account name) a j = (j.status ≡ failed) × (j.error ≢ [])
JobOutcome (unknown_model name) a j = (j.status ≡ failed) × (j.error ≢ [])
JobOutcome (resolved name mc) (panics e) j = FailsWith (codes "internal error: " ++ e) j
JobOutcome (resolved name mc) (fails (b ∷ e)) j = FailsWith (b ∷ e) j
JobOutcome (resolved name mc) (fails []) j = (j.status ≡ completed) × (j.mp4 ≡ [])
JobOutcome (resolved name mc) (artifacts []) j = FailsWith (codes "no video produced") j
JobOutcome (resolved name mc) (artifacts ((mp4, mime) ∷ more)) j =
    (j.status ≡ completed)
    × (j.mp4 ≡ mp4)
    × (j.mime ≡ (if is_empty mime then codes "video/mp4" else mime))

finish_run-JobOutcome :
    (r : Resolved) (a : Answer) (j : VideoJob) → JobOutcome r a (finish_run r a j)
unfolding JobOutcome finish_run finish_by_answer finish_video_job
finish_run-JobOutcome (needs_account name) a j = (refl, λ e. absurd cc)
finish_run-JobOutcome (unknown_model name) a j = (refl, λ e. absurd cc)
finish_run-JobOutcome (resolved name mc) (panics e) j = (refl, refl)
finish_run-JobOutcome (resolved name mc) (fails (b ∷ e)) j = (refl, refl)
finish_run-JobOutcome (resolved name mc) (fails []) j = (refl, refl)
finish_run-JobOutcome (resolved name mc) (artifacts []) j = (refl, refl)
finish_run-JobOutcome (resolved name mc) (artifacts ((mp4, mime) ∷ more)) j = (refl, refl, refl)

end_on-JobOutcome :
    (accounts : List CookieAccount) (a : Answer) (t : Turn) (c : Cell)
    → t ≡ runs
    → JobOutcome (resolve_model accounts c.job.model) a (end_on accounts a t c).job
      × (is_returned (end_on accounts a t c).turn ≡ true)
unfolding end_on is_returned
end_on-JobOutcome accounts a waits c e = absurd cc
end_on-JobOutcome accounts a returned c e = absurd cc
end_on-JobOutcome accounts a runs c e =
    (finish_run-JobOutcome (resolve_model accounts c.job.model) a c.job, refl)

-- For any history of requests and of steps of the goroutines, in any order: where the goroutine of a job
-- that runs ends, the job is failed, with an error, where its model is refused, the call panics, fails
-- with a text or gives no video; it is completed, with the first artifact and its type or video/mp4,
-- where it gives one, and with no video where it fails without a text; and so it stays, whatever follows.
pub run-JobOutcome :
    (before after : List Event) (p : ℕ) (c : Cell) (accounts : List CookieAccount) (a : Answer)
    → get_elem? (run before no_jobs).heap p ≡ some c
    → c.turn ≡ runs
    → (d : Cell) × (get_elem? (run after (step (ends p accounts a) (run before no_jobs))).heap p
        ≡ some d)
      × (d.job.id ≡ c.job.id)
      × JobOutcome (resolve_model accounts c.job.model) a d.job
unfolding Kept Sound step
run-JobOutcome before after p c accounts a e running =
    let w = run before no_jobs in
    let sound = (run-Kept before no_jobs tt).1 in
    let (kept, sound') = step-Kept (ends p accounts a) w sound in
    let d = end_on accounts a c.turn c in
    let at = get_elem?-update (λ k. end_on accounts a k.turn k) p w.heap c e in
    let (ended, gone) = end_on-JobOutcome accounts a c.turn c running in
    let (k, there, later) = kept p c e in
    let same : k ≡ d = some_injective (sym there ∙ at) in
    let (f, stays, last) = (run-Kept after (step (ends p accounts a) w) sound').0 p d at in
    (
      d,
      stays ∙ ap some (last.settled gone),
      subst (λ x. x.job.id ≡ c.job.id) same later.same_id,
      ended,
    )
