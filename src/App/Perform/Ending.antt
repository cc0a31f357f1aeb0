-- ===== src/App/Perform/Ending.antt =====
-- Every run ends: its goroutine has only so many segments (internal/app/app.go).
use crawlbox.Common.{
  ℕ, suc, ◌+◌, ◌-◌, ◌≤◌, ◌≡◌, refl, true, false, Option, none, some, List, [], ◌∷◌, arith,
}
use crawlbox.Common.Result.{Result, ok, err}
use crawlbox.App.Perform.{World, Draft}
use crawlbox.App.Perform.Machine.{
  Plan, Task, waiting, prepared, finishing, finished, released, Move, goes, happens, commits,
  after_prepare, after_publish, advance, move, moves, without_slot,
}
use crawlbox.App.Control.{Ended}
use crawlbox.App.Perform.Publication.{publish}
use crawlbox.App.Perform.Finish.{run_context}

-- How many segments the goroutine still has, at most.
abbrev pub remaining : Task → ℕ
remaining waiting = 4
remaining (prepared d) = 3
remaining (finishing e) = 2
remaining finished = 1
remaining released = 0

-- How often the goroutine goes on with a slot.
abbrev pub turns : List Move → ℕ
turns [] = 0
turns (goes true ∷ ms) = suc (turns ms)
turns (m ∷ ms) = turns ms

after_prepare-remaining : (x : Result (Option Draft) × World) → remaining (after_prepare x).0 ≤ 3
after_prepare-remaining (ok (some d), w) = omega arith
after_prepare-remaining (ok none, w) = omega arith
after_prepare-remaining (err e, w) = omega arith

after_publish-remaining : (x : Result (Unit {0}) × World) → remaining (after_publish x).0 ≤ 2
after_publish-remaining (ok done, w) = omega arith
after_publish-remaining (err e, w) = omega arith

advance-remaining :
    (p : Plan) (t : Task) (w : World) → remaining (advance p true t w).0 ≤ remaining t - 1
unfolding advance
advance-remaining p waiting w = after_prepare-remaining _
advance-remaining p (prepared d) w = after_publish-remaining _
advance-remaining p (finishing e) w = omega arith
advance-remaining p finished w = omega arith
advance-remaining p released w = omega arith

without_slot-remaining :
    (p : Plan) (t : Task) (w : World) → remaining (advance p false t w).0 ≤ remaining t
unfolding advance
without_slot-remaining p waiting w = by_context (run_context p.id w.app)
  where
    by_context : (o : Option Ended) → remaining (without_slot o w).0 ≤ 4
    by_context none = omega arith
    by_context (some e) = omega arith
without_slot-remaining p (prepared d) w =
    omega (arith, after_publish-remaining (publish p.io p.id p.source d w))
without_slot-remaining p (finishing e) w = omega arith
without_slot-remaining p finished w = omega arith
without_slot-remaining p released w = omega arith

move-remaining :
    (p : Plan) (m : Move) (t : Task) (w : World)
    → remaining (move p m (t, w)).0 ≤ remaining t - turns (m ∷ [])
unfolding move
move-remaining p (goes true) t w = advance-remaining p t w
move-remaining p (goes false) t w = omega (arith, without_slot-remaining p t w)
move-remaining p (happens e) t w = omega arith
move-remaining p (commits fault r) t w = omega arith

turns-cons : (m : Move) (ms : List Move) → turns (m ∷ ms) ≡ turns (m ∷ []) + turns ms
turns-cons (goes true) ms = omega arith
turns-cons (goes false) ms = omega arith
turns-cons (happens e) ms = omega arith
turns-cons (commits fault r) ms = omega arith

pub moves-remaining :
    (p : Plan) (ms : List Move) (t : Task) (w : World)
    → remaining (moves p ms (t, w)).0 ≤ remaining t - turns ms
unfolding moves
moves-remaining p [] t w = omega arith
moves-remaining p (m ∷ ms) t w =
    let (t', w') = move p m (t, w) in
    omega (arith, move-remaining p m t w, moves-remaining p ms t' w', turns-cons m ms)

pub ended : (t : Task) → remaining t ≤ 0 → t ≡ released
ended waiting h = absurd (omega (arith, h))
ended (prepared d) h = absurd (omega (arith, h))
ended (finishing e) h = absurd (omega (arith, h))
ended finished h = absurd (omega (arith, h))
ended released h = refl
