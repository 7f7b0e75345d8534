-- ===== src/Videos/Turns.antt =====
-- The steps of a job's goroutine, and a run in two parts.
use gemini_web2api_go_browse.Prelude.{
  ℕ, zero, suc, ◌≤◌, ◌≡◌, refl, ap, List, [], ◌∷◌, ◌++◌, some, arith, get_elem?,
}
use gemini_web2api_go_browse.CookiePool.{CookieAccount}
use gemini_web2api_go_browse.Videos.{
  Turn, waits, runs, returned, Cell, Videos, update_cell, Answer, start_on, end_on, Event, step,
  run,
}
use gemini_web2api_go_browse.Videos.Steps.{rank}

pub run-append : (es fs : List Event) (w : Videos) → run (es ++ fs) w ≡ run fs (run es w)
unfolding run
run-append [] fs w = refl
run-append (e ∷ es) fs w = run-append es fs (step e w)

pub get_elem?-update :
    (f : Cell → Cell) (p : ℕ) (cs : List Cell) (c : Cell)
    → get_elem? cs p ≡ some c
    → get_elem? (update_cell p f cs) p ≡ some (f c)
unfolding update_cell
get_elem?-update f p [] c e = absurd cc
get_elem?-update f zero (b ∷ cs) c e = let at : b ≡ c = cc in ap (λ k. some (f k)) at
get_elem?-update f (suc p) (b ∷ cs) c e = get_elem?-update f p cs c e

pub started : (t : Turn) (c : Cell) → c.turn ≡ t → 1 ≤ rank (start_on t c).turn
unfolding start_on rank
started waits c e = omega arith
started runs c e = rw e (omega arith)
started returned c e = rw e (omega arith)

pub ended :
    (accounts : List CookieAccount) (a : Answer) (t : Turn) (c : Cell)
    → c.turn ≡ t
    → 1 ≤ rank c.turn
    → (end_on accounts a t c).turn ≡ returned
unfolding end_on rank
ended accounts a waits c e h = absurd (let f : 1 ≤ 0 = rw e at h in omega (arith, f))
ended accounts a runs c e h = refl
ended accounts a returned c e h = e
