-- ===== src/Videos/Polled.antt =====
-- The table keeps a job under its id while requests spare it.
use gemini_web2api_go_browse.Prelude.{
  ℕ, ◌+◌, ◌*◌, ◌≤◌, ◌≡◌, ◌≢◌, refl, sym, ap, ap₂, ◌∙◌, inl, inr, Bool, true, false, List, [], ◌∷◌,
  ◌++◌, Option, none, some, arith, length, keep, get_elem?, All, Bool-cases, subst, codes, Text,
  text_eq, text_eq_iff, text_eq_sym, not, is_empty, if◌then◌else◌,
}
use gemini_web2api_go_browse.CookiePool.{trim_space}
use gemini_web2api_go_browse.Models.{models, model_named}
use gemini_web2api_go_browse.Videos.{
  Cell, Videos, outdated, put_video_job, find_job, is_video_model, new_job, create_video, Event,
  creates, starts, ends, step, run,
}
use gemini_web2api_go_browse.Videos.Steps.{Kept, Sound, step-Kept}

-- A request that creates no second job under the id, two hours after the first at most.
unfoldable pub Spares : Text → ℕ → Event → Type 0
Spares id now (creates t random prompt asked) =
    (t ≤ now + 2 * 3600) × (codes "video_" ++ random ≢ id)
Spares id now (starts p) = Unit {0}
Spares id now (ends p accounts a) = Unit {0}

find-kept :
    (id : Text) (p : ℕ) (f : Text × ℕ → Bool) (jobs : List (Text × ℕ))
    → f (id, p) ≡ true
    → find_job id jobs ≡ some p
    → find_job id (keep f jobs) ≡ some p
unfolding find_job
find-kept id p f [] good e = absurd cc
find-kept id p f ((k, q) ∷ jobs) good e = elim (Bool-cases (text_eq k id)) [
  | inl y ↦
      let same : k ≡ id = (text_eq_iff k id).0 y in
      let at : q ≡ p = let g : some q ≡ some p = rw y at e in cc in
      let stays : f (k, q) ≡ true = ap f (ap₂ (λ a b. (a, b)) same at) ∙ good in
      rw stays (rw y (ap some at))
  | inr z ↦ elim (Bool-cases (f (k, q))) [
    | inl g ↦ rw g (rw z (find-kept id p f jobs good (rw z at e)))
    | inr b ↦ rw b (find-kept id p f jobs good (rw z at e))
  ]
]

pub get_elem?-last {ℓ} :
    {A : Type ℓ} (xs : List A) (x : A) → get_elem? (xs ++ x ∷ []) (length xs) ≡ some x
get_elem?-last [] x = refl
get_elem?-last (y ∷ xs) x = get_elem?-last xs x

All-split {ℓ κ} :
    {A : Type ℓ} (P : A → Type κ) (xs ys : List A) → All P (xs ++ ys) → All P xs × All P ys
All-split P [] ys h = (tt, h)
All-split P (x ∷ xs) ys (p, h) = let (a, b) = All-split P xs ys h in ((p, a), b)

not_outdated :
    (t : ℕ) (o : Option Cell) (c : Cell)
    → o ≡ some c
    → t ≤ c.job.created_at + 2 * 3600
    → outdated t o ≡ false
unfolding outdated
not_outdated t none c e h = refl
not_outdated t (some d) c e h =
    let at : c ≡ d = cc in
    let h' : t ≤ d.job.created_at + 2 * 3600 = subst (λ k. t ≤ k.job.created_at + 2 * 3600) at h in
    ground arith

module _ (id : Text) (p : ℕ) (c : Cell) where
  put_video_job-find :
      (t : ℕ) (key : Text) (q : ℕ) (heap : List Cell) (jobs : List (Text × ℕ))
      → key ≢ id
      → t ≤ c.job.created_at + 2 * 3600
      → get_elem? heap p ≡ some c
      → find_job id jobs ≡ some p
      → find_job id (put_video_job t key q heap jobs) ≡ some p
  unfolding put_video_job find_job
  put_video_job-find t key q heap jobs apart soon at found = elim (Bool-cases (text_eq key id)) [
    | inl y ↦ absurd (apart ((text_eq_iff key id).0 y))
    | inr z ↦ rw z (
        find-kept id p _ jobs
          (rw (not_outdated t (get_elem? heap p) c at soon, text_eq_sym id key ∙ z) refl) found)
  ]

  create_video-find :
      (t : ℕ) (random prompt asked : Text) (w : Videos)
      → (t ≤ c.job.created_at + 2 * 3600) × (codes "video_" ++ random ≢ id)
      → get_elem? w.heap p ≡ some c
      → find_job id w.jobs ≡ some p
      → find_job id (create_video t random prompt asked w).1.jobs ≡ some p
  unfolding create_video new_job
  create_video-find t random prompt asked w (soon, apart) at found =
      let model = if is_empty asked then codes "gemini-video" else asked in
      elim (Bool-cases (is_empty (trim_space prompt))) [
        | inl y ↦ rw y found
        | inr z ↦ elim (Bool-cases (not (is_video_model (model_named model models)))) [
          | inl n ↦ rw z (rw n found)
          | inr v ↦ rw z (
              rw v (
                put_video_job-find t (codes "video_" ++ random) (length w.heap) w.heap w.jobs apart
                  soon at found))
        ]
      ]

  step-find :
      (e : Event) (w : Videos)
      → Spares id c.job.created_at e
      → get_elem? w.heap p ≡ some c
      → find_job id w.jobs ≡ some p
      → find_job id (step e w).jobs ≡ some p
  unfolding step Spares
  step-find (creates t random prompt asked) w s at found =
      create_video-find t random prompt asked w s at found
  step-find (starts q) w s at found = found
  step-find (ends q accounts a) w s at found = found

pub run-find :
    (id : Text) (p now : ℕ) (es : List Event) (w : Videos) (c : Cell)
    → Sound w.heap
    → All (Spares id now) es
    → get_elem? w.heap p ≡ some c
    → c.job.created_at ≡ now
    → find_job id w.jobs ≡ some p
    → find_job id (run es w).jobs ≡ some p
unfolding run Kept
run-find id p now [] w c sound s at t found = found
run-find id p now (e ∷ es) w c sound (s, ss) at t found =
    let (kept, sound') = step-Kept e w sound in
    let (d, there, later) = kept p c at in
    run-find id p now es (step e w) d sound' ss there (later.same_time ∙ t)
      (step-find id p c e w (subst (λ k. Spares id k e) (sym t) s) at found)
