-- ===== src/Videos/Steps.antt =====
-- What a step leaves of each job: a job never goes back.
use gemini_web2api_go_browse.Prelude.{
  ℕ, zero, suc, ◌≤◌, ◌≡◌, refl, ap, ◌∙◌, inl, inr, Bool, true, false, List, [], ◌∷◌, ◌++◌, some,
  arith, get_elem?, All, Bool-cases, subst, codes, Text, not, is_empty, if◌then◌else◌,
}
use gemini_web2api_go_browse.Videos.{
  Status, queued, in_progress, completed, failed, VideoJob, Turn, waits, runs, returned, Cell,
  Videos, update_cell, create_video, is_video_model, new_job, finish_video_job, Answer, panics,
  fails, artifacts, finish_by_answer, finish_run, start_on, end_on, Event, creates, starts, ends,
  step, run,
}
use gemini_web2api_go_browse.CookiePool.{CookieAccount, trim_space}
use gemini_web2api_go_browse.Models.{
  Resolved, resolved, needs_account, unknown_model, resolve_model, models, model_named,
}

unfoldable pub is_final : Status → Bool
is_final queued = false
is_final in_progress = false
is_final completed = true
is_final failed = true

unfoldable pub is_returned : Turn → Bool
is_returned waits = false
is_returned runs = false
is_returned returned = true

unfoldable pub rank : Turn → ℕ
rank waits = 0
rank runs = 1
rank returned = 2

-- What later steps leave of a job: its identity, and all of it once its goroutine returned.
pub record Later (c d : Cell) : Type 0 where
  pub same_id : d.job.id ≡ c.job.id
  pub same_time : d.job.created_at ≡ c.job.created_at
  pub forward : rank c.turn ≤ rank d.turn
  pub settled : is_returned c.turn ≡ true → d ≡ c

Later-refl : (c : Cell) → Later c c
Later-refl c = record {
  same_id = refl;
  same_time = refl;
  forward = omega arith;
  settled = λ r. refl;
}

Later-trans : (c d f : Cell) → Later c d → Later d f → Later c f
Later-trans c d f a b = record {
  same_id = b.same_id ∙ a.same_id;
  same_time = b.same_time ∙ a.same_time;
  forward = omega (arith, a.forward, b.forward);
  settled = λ r. let e = a.settled r in b.settled (ap (λ k. is_returned k.turn) e ∙ r) ∙ e;
}

finish_video_job-keeps :
    (mp4 mime error : Text) (j : VideoJob)
    → ((finish_video_job mp4 mime error j).id ≡ j.id)
      × ((finish_video_job mp4 mime error j).created_at ≡ j.created_at)
      × (is_final (finish_video_job mp4 mime error j).status ≡ true)
unfolding finish_video_job is_final
finish_video_job-keeps mp4 mime [] j = (refl, refl, refl)
finish_video_job-keeps mp4 mime (b ∷ error) j = (refl, refl, refl)

finish_run-keeps :
    (r : Resolved) (a : Answer) (j : VideoJob)
    → ((finish_run r a j).id ≡ j.id)
      × ((finish_run r a j).created_at ≡ j.created_at)
      × (is_final (finish_run r a j).status ≡ true)
unfolding finish_run finish_by_answer
finish_run-keeps (resolved name mc) (panics e) j =
    finish_video_job-keeps [] [] (codes "internal error: " ++ e) j
finish_run-keeps (resolved name mc) (fails e) j = finish_video_job-keeps [] [] e j
finish_run-keeps (resolved name mc) (artifacts []) j =
    finish_video_job-keeps [] [] (codes "no video produced") j
finish_run-keeps (resolved name mc) (artifacts ((mp4, mime) ∷ more)) j =
    finish_video_job-keeps mp4 mime [] j
finish_run-keeps (needs_account name) a j =
    finish_video_job-keeps [] [] (codes "needs an account: " ++ name) j
finish_run-keeps (unknown_model name) a j =
    finish_video_job-keeps [] [] (codes "unknown model: " ++ name) j

unfoldable pub Consistent : Cell → Type 0
Consistent c = is_final c.job.status ≡ is_returned c.turn

-- A step of a goroutine goes forward, and keeps the status with its turn.
start_on-Later :
    (t : Turn) (c : Cell)
    → c.turn ≡ t
    → Consistent c
    → Later c (start_on t c) × Consistent (start_on t c)
unfolding start_on is_returned is_final rank Consistent
start_on-Later waits c e k = (
  record {
    same_id = refl;
    same_time = refl;
    forward = rw e (omega arith);
    settled = λ r. absurd (let f : false ≡ true = rw e at r in cc);
  },
  refl,
)
start_on-Later runs c e k = (Later-refl c, k)
start_on-Later returned c e k = (Later-refl c, k)

end_on-Later :
    (accounts : List CookieAccount) (a : Answer) (t : Turn) (c : Cell)
    → c.turn ≡ t
    → Consistent c
    → Later c (end_on accounts a t c) × Consistent (end_on accounts a t c)
unfolding end_on is_returned rank Consistent
end_on-Later accounts a waits c e k = (Later-refl c, k)
end_on-Later accounts a returned c e k = (Later-refl c, k)
end_on-Later accounts a runs c e k =
    let (same, at, final) = finish_run-keeps (resolve_model accounts c.job.model) a c.job in
    (
      record {
        same_id = same;
        same_time = at;
        forward = rw e (omega arith);
        settled = λ r. absurd (let f : false ≡ true = rw e at r in cc);
      },
      final,
    )

-- Every job is as its turn says, and each that stood at a position is there later.
unfoldable pub Sound : List Cell → Type 0
Sound cs = All Consistent cs

unfoldable pub Kept : List Cell → List Cell → Type 0
Kept cs ds =
    (q : ℕ) (c : Cell)
    → get_elem? cs q ≡ some c
    → (d : Cell) × (get_elem? ds q ≡ some d) × Later c d

module _ (f : Cell → Cell)
    (good : (c : Cell) → Consistent c → Later c (f c) × Consistent (f c)) where
  update_cell-Kept : (p : ℕ) (cs : List Cell) → Sound cs → Kept cs (update_cell p f cs)
  unfolding Kept Sound update_cell
  update_cell-Kept p [] sound q c e = absurd cc
  update_cell-Kept zero (b ∷ cs) (s, sound) zero c e =
      let at : b ≡ c = cc in (f b, refl, subst (λ k. Later k (f b)) at (good b s).0)
  update_cell-Kept zero (b ∷ cs) (s, sound) (suc q) c e = (c, e, Later-refl c)
  update_cell-Kept (suc p) (b ∷ cs) (s, sound) zero c e = (c, e, Later-refl c)
  update_cell-Kept (suc p) (b ∷ cs) (s, sound) (suc q) c e = update_cell-Kept p cs sound q c e

  update_cell-Sound : (p : ℕ) (cs : List Cell) → Sound cs → Sound (update_cell p f cs)
  unfolding Sound update_cell
  update_cell-Sound p [] sound = tt
  update_cell-Sound zero (b ∷ cs) (s, sound) = ((good b s).1, sound)
  update_cell-Sound (suc p) (b ∷ cs) (s, sound) = (s, update_cell-Sound p cs sound)

append-Kept : (cs ds : List Cell) → Kept cs (cs ++ ds)
unfolding Kept
append-Kept [] ds q c e = absurd cc
append-Kept (b ∷ cs) ds zero c e = (c, e, Later-refl c)
append-Kept (b ∷ cs) ds (suc q) c e = append-Kept cs ds q c e

append-Sound : (cs : List Cell) (c : Cell) → Sound cs → Consistent c → Sound (cs ++ c ∷ [])
unfolding Sound
append-Sound [] c sound k = (k, tt)
append-Sound (b ∷ cs) c (s, sound) k = (s, append-Sound cs c sound k)

Kept-refl : (cs : List Cell) → Kept cs cs
unfolding Kept
Kept-refl cs q c e = (c, e, Later-refl c)

Kept-trans : (bs cs ds : List Cell) → Kept bs cs → Kept cs ds → Kept bs ds
unfolding Kept
Kept-trans bs cs ds h k q c e =
    let (d, at, one) = h q c e in
    let (f, there, two) = k q d at in (f, there, Later-trans c d f one two)

module _ (now : ℕ) (random prompt asked : Text) (w : Videos) where
  create_video-Kept :
      Sound w.heap
      → Kept w.heap (create_video now random prompt asked w).1.heap
        × Sound (create_video now random prompt asked w).1.heap
  unfolding create_video new_job Consistent is_final is_returned
  create_video-Kept sound =
      let model = if is_empty asked then codes "gemini-video" else asked in
      elim (Bool-cases (is_empty (trim_space prompt))) [
        | inl y ↦ rw y (Kept-refl w.heap, sound)
        | inr z ↦ elim (Bool-cases (not (is_video_model (model_named model models)))) [
          | inl n ↦ rw z (rw n (Kept-refl w.heap, sound))
          | inr v ↦ rw z (rw v (append-Kept w.heap _, append-Sound w.heap _ sound refl))
        ]
      ]

pub step-Kept :
    (e : Event) (w : Videos) → Sound w.heap → Kept w.heap (step e w).heap × Sound (step e w).heap
unfolding step
step-Kept (creates now random prompt asked) w sound =
    create_video-Kept now random prompt asked w sound
step-Kept (starts p) w sound =
    let good : (c : Cell)
        → Consistent c
        → Later c (start_on c.turn c) × Consistent (start_on c.turn c) =
      λ c k. start_on-Later c.turn c refl k in
    (update_cell-Kept _ good p w.heap sound, update_cell-Sound _ good p w.heap sound)
step-Kept (ends p accounts a) w sound =
    let good : (c : Cell)
        → Consistent c
        → Later c (end_on accounts a c.turn c) × Consistent (end_on accounts a c.turn c) =
      λ c k. end_on-Later accounts a c.turn c refl k in
    (update_cell-Kept _ good p w.heap sound, update_cell-Sound _ good p w.heap sound)

pub run-Kept :
    (es : List Event) (w : Videos)
    → Sound w.heap
    → Kept w.heap (run es w).heap × Sound (run es w).heap
unfolding run
run-Kept [] w sound = (Kept-refl w.heap, sound)
run-Kept (e ∷ es) w sound =
    let (one, sound') = step-Kept e w sound in
    let (rest, sound'') = run-Kept es (step e w) sound' in
    (Kept-trans w.heap (step e w).heap (run es (step e w)).heap one rest, sound'')

pub at-Consistent :
    (cs : List Cell) (q : ℕ) (c : Cell) → Sound cs → get_elem? cs q ≡ some c → Consistent c
unfolding Sound
at-Consistent [] q c sound e = absurd cc
at-Consistent (b ∷ cs) zero c (s, sound) e = let at : b ≡ c = cc in subst Consistent at s
at-Consistent (b ∷ cs) (suc q) c (s, sound) e = at-Consistent cs q c sound e
