-- ===== src/Alarms/Tests.antt =====
-- Runs of the modules of 30.信号专题, and the theorem about anytimer.c.
use apue_li_huiqin.Base.{◌≡◌, refl, true, false, List, [], ◌∷◌, ◌⊎◌, ◌<◌, length}
use apue_li_huiqin.Alarms.{
  earlier, Event, second, calls, run, begin, module_load, module_unload, mytbf_load, mytbf_unload,
}
use apue_li_huiqin.Alarms.Order.{run-module}

-- An alarm while the program works, and one between the two calls of the exit.
abbrev events : List Event
events = calls true ∷ calls true ∷ second ∷ calls true ∷ calls true ∷ second ∷ calls true ∷ []

one_tick : (run true events (begin module_load module_unload)).ticks ≡ 1
unfolding run begin module_load module_unload
one_tick = refl

-- mytbf.c has put the earlier action back by then, which ends the program by default.
one_stray : (run false events (begin mytbf_load mytbf_unload)).strays ≡ 1
unfolding run begin mytbf_load mytbf_unload
one_stray = refl

run-module_example :
    ((run true events (begin module_load module_unload)).strays ≡ 0)
    × (((run true events (begin module_load module_unload)).exited ≡ true)
        ⊎ ((0 < length (run true events (begin module_load module_unload)).todo)
            ⊎ (((run true events (begin module_load module_unload)).handler ≡ earlier)
                × ((run true events (begin module_load module_unload)).timer ≡ false))))
run-module_example = run-module events
