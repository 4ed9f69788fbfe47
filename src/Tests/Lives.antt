-- ===== src/Tests/Lives.antt =====
-- The theorems on the life of runs, at the life of one run.
use agents_admin.Prelude.{true, false, some, [], ◌∷◌, ◌≡◌, refl}
use agents_admin.Model.Run.{of_string}
use agents_admin.Storage.Runs.{find_run}
use agents_admin.Prelude.{eq_iff}
use agents_admin.System.{run}
use agents_admin.System.Lifecycle.{Reach}
use agents_admin.System.Serving.{AllRespect, run-Reach}
use agents_admin.System.Settled.{OtherRun, run-settled}
use agents_admin.System.Keyed.{Keyed}
use agents_admin.System.Begun.{Begun, Ending, run-Begun}
use agents_admin.Tests.{db_of, life, ended_run}

-- The statuses that the last request of this life may write.
life_respects : AllRespect Ending life
unfolding of_string
life_respects = (tt, (tt, (tt, (refl, (tt, tt)))))

run-Reach_example : Reach Ending (db_of []) (run (db_of []) life)
run-Reach_example = run-Reach Ending (db_of []) life life_respects

false_is_not_true : false ≡ true → ⊥
false_is_not_true e = cc

other_life : AllRespect (OtherRun "r0" ended_run) life
other_life = (tt, (tt, (tt, ((λ e. false_is_not_true ((eq_iff "r1" "r0").1 e)), (refl, tt)))))

run-settled_example : find_run "r0" (run (db_of (ended_run ∷ [])) life) ≡ some ended_run
unfolding find_run
run-settled_example = run-settled "r0" ended_run refl (db_of (ended_run ∷ [])) life refl other_life

empty-Keyed : Keyed (db_of [])
empty-Keyed r h = elim h [ ]

empty-Begun : Begun (db_of [])
empty-Begun r h w = elim h [ ]

run-Begun_example : Begun (run (db_of []) life)
run-Begun_example = run-Begun (db_of []) life empty-Keyed empty-Begun life_respects
