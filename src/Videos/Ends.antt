-- ===== src/Videos/Ends.antt =====
-- A job of a video can be polled under its id, and comes to an end with its goroutine.
use gemini_web2api_go_browse.Prelude.{
  ℕ, ◌≤◌, ◌≡◌, refl, sym, ap, ◌∙◌, inl, inr, true, List, ◌∷◌, ◌++◌, Option, none, some, arith,
  length, get_elem?, All, Bool-cases, subst, some_injective, codes, Text, text_eq_iff, not,
  is_empty, if◌then◌else◌,
}
use gemini_web2api_go_browse.CookiePool.{CookieAccount, trim_space}
use gemini_web2api_go_browse.Models.{models, model_named}
use gemini_web2api_go_browse.Videos.{
  VideoJob, waits, Cell, Videos, put_video_job, find_job, job_at, get_video_job, job_created,
  missing_prompt, not_a_video_model, is_video_model, new_job, create_video, Answer, start_on,
  end_on, Event, creates, starts, ends, step, run, no_jobs,
}
use gemini_web2api_go_browse.Videos.Steps.{
  is_final, is_returned, rank, Kept, Sound, Consistent, step-Kept, run-Kept, at-Consistent,
}
use gemini_web2api_go_browse.Videos.Turns.{run-append, get_elem?-update, started, ended}
use gemini_web2api_go_browse.Videos.Polled.{Spares, get_elem?-last, run-find}

-- After both steps of its goroutine, whatever comes in between, a job is as its turn at the end says.
module _ (p : ℕ) (accounts : List CookieAccount) (a : Answer) where
  abbrev begin_then_end : List Event → List Event → List Event → List Event
  begin_then_end xs ys zs = xs ++ (starts p ∷ (ys ++ (ends p accounts a ∷ zs)))

  run-returned :
      (xs ys zs : List Event) (w : Videos) (c : Cell)
      → Sound w.heap
      → get_elem? w.heap p ≡ some c
      → (d : Cell) × (get_elem? (run (begin_then_end xs ys zs) w).heap p ≡ some d)
        × (d.job.id ≡ c.job.id)
        × (is_final d.job.status ≡ true)
  unfolding run step Kept Consistent is_returned
  run-returned xs ys zs w c sound at =
      let w1 = run xs w in
      let (k1, s1) = run-Kept xs w sound in
      let (c1, at1, l1) = k1 p c at in
      let w2 = step (starts p) w1 in
      let s2 = (step-Kept (starts p) w1 s1).1 in
      let c2 = start_on c1.turn c1 in
      let at2 = get_elem?-update (λ k. start_on k.turn k) p w1.heap c1 at1 in
      let w3 = run ys w2 in
      let (k3, s3) = run-Kept ys w2 s2 in
      let (c3, at3, l3) = k3 p c2 at2 in
      let w4 = step (ends p accounts a) w3 in
      let s4 = (step-Kept (ends p accounts a) w3 s3).1 in
      let c4 = end_on accounts a c3.turn c3 in
      let at4 = get_elem?-update (λ k. end_on accounts a k.turn k) p w3.heap c3 at3 in
      let (k5, s5) = run-Kept zs w4 s4 in
      let (c5, at5, l5) = k5 p c4 at4 in
      let late : 1 ≤ rank c3.turn = omega (arith, started c1.turn c1 refl, l3.forward) in
      let gone : is_returned c4.turn ≡ true =
        ap is_returned (ended accounts a c3.turn c3 refl late) in
      let same : c5 ≡ c4 = l5.settled gone in
      let whole : run (begin_then_end xs ys zs) w ≡ run zs w4 =
        run-append xs (starts p ∷ (ys ++ (ends p accounts a ∷ zs))) w
        ∙ run-append ys (ends p accounts a ∷ zs) w2 in
      let here : get_elem? (run (begin_then_end xs ys zs) w).heap p ≡ some c5 =
        ap (λ v. get_elem? v.heap p) whole ∙ at5 in
      let (d, there, later) = (run-Kept (begin_then_end xs ys zs) w sound).0 p c at in
      let one : d ≡ c5 = some_injective (sym there ∙ here) in
      (
        c5,
        here,
        subst (λ k. k.job.id ≡ c.job.id) one later.same_id,
        at-Consistent (run zs w4).heap p c5 s5 at5 ∙ ap (λ k. is_returned k.turn) same ∙ gone,
      )

find-head :
    (k id : Text) (p : ℕ) (jobs : List (Text × ℕ)) → k ≡ id → find_job id ((k, p) ∷ jobs) ≡ some p
unfolding find_job
find-head k id p jobs e = rw ((text_eq_iff k id).1 e) refl

-- A creation that is accepted puts the job last in the heap, and under its id in the table.
created_job :
    (t : ℕ) (random prompt asked : Text) (w : Videos) (j : VideoJob)
    → (create_video t random prompt asked w).0 ≡ job_created j
    → (c : Cell) × (get_elem? (create_video t random prompt asked w).1.heap (length w.heap)
        ≡ some c)
      × (find_job j.id (create_video t random prompt asked w).1.jobs ≡ some (length w.heap))
      × (c.job.id ≡ j.id)
      × (c.job.created_at ≡ t)
unfolding create_video put_video_job find_job new_job
created_job t random prompt asked w j e =
    let model = if is_empty asked then codes "gemini-video" else asked in
    elim (Bool-cases (is_empty (trim_space prompt))) [
      | inl y ↦ absurd (let f : missing_prompt ≡ job_created j = rw y at e in cc)
      | inr z ↦ elim (Bool-cases (not (is_video_model (model_named model models)))) [
        | inl n ↦ absurd (let f : not_a_video_model ≡ job_created j = rw z at (rw n at e) in cc)
        | inr v ↦
            let f : job_created (new_job t random model prompt) ≡ job_created j =
              rw z at (rw v at e) in
            let same : new_job t random model prompt ≡ j = cc in
            let named : codes "video_" ++ random ≡ j.id = ap (λ k. k.id) same in
            rw z (
              rw v (
                record { job = new_job t random model prompt; turn = waits },
                get_elem?-last w.heap _,
                find-head (codes "video_" ++ random) j.id (length w.heap) _ named,
                named,
                refl,
              ))
      ]
    ]

job_at-some :
    (heap : List Cell) (o : Option ℕ) (p : ℕ) (c : Cell)
    → o ≡ some p
    → get_elem? heap p ≡ some c
    → job_at heap o ≡ some c.job
unfolding job_at
job_at-some heap none p c e at = absurd cc
job_at-some heap (some q) p c e at = let here : q ≡ p = cc in rw here (rw (job_at, at) refl)

-- For any history and any accepted job: where the two steps of its goroutine follow, whatever its
-- call comes to and whatever other steps come before, between and after, of which none creates a job later
-- than two hours after it or under its id, the table still has the job under its id, completed or failed.
pub create_video-ends :
    (before xs ys zs : List Event) (t : ℕ) (random prompt asked : Text) (j : VideoJob) (p : ℕ)
    (accounts : List CookieAccount) (a : Answer)
    → (create_video t random prompt asked (run before no_jobs)).0 ≡ job_created j
    → p ≡ length (run before no_jobs).heap
    → All (Spares j.id t) (xs ++ (starts p ∷ (ys ++ (ends p accounts a ∷ zs))))
    → (k : VideoJob) × (get_video_job j.id (
          run
            (xs ++ (starts p ∷ (ys ++ (ends p accounts a ∷ zs))))
            (create_video t random prompt asked (run before no_jobs)).1)
        ≡ some k)
      × (k.id ≡ j.id)
      × (is_final k.status ≡ true)
unfolding get_video_job Sound step
create_video-ends before xs ys zs t random prompt asked j p accounts a taken last spares =
    let w = run before no_jobs in
    let w' = (create_video t random prompt asked w).1 in
    let es = xs ++ (starts p ∷ (ys ++ (ends p accounts a ∷ zs))) in
    let sound = (step-Kept (creates t random prompt asked) w (run-Kept before no_jobs tt).1).1 in
    let (c, at, found, named, created) = created_job t random prompt asked w j taken in
    let at' = subst (λ n. get_elem? w'.heap n ≡ some c) (sym last) at in
    let found' = subst (λ n. find_job j.id w'.jobs ≡ some n) (sym last) found in
    let (d, there, same, final) = run-returned p accounts a xs ys zs w' c sound at' in
    let still = run-find j.id p t es w' c sound spares at' created found' in
    (
      d.job,
      job_at-some (run es w').heap (find_job j.id (run es w').jobs) p d still there,
      same ∙ named,
      final,
    )
