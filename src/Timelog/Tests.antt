-- ===== src/Timelog/Tests.antt =====
-- Runs of 28.目录和用户操作/timelog.c, and the theorem about it.
use apue_li_huiqin.Base.{ℕ, ◌≡◌, refl, some, List, [], ◌∷◌, ◌++◌}
use apue_li_huiqin.Timelog.{Tm, main, entry}
use apue_li_huiqin.Timelog.Restart.{used_at_end, main-restart}

-- 2021-1-2 3:4:5.
abbrev second : Tm
second = record { tm_year = 121; tm_mon = 0; tm_mday = 2; tm_hour = 3; tm_min = 4; tm_sec = 5 }

-- An older line, "0".
abbrev old : List ℕ
old = 48 ∷ 10 ∷ []

abbrev middle : List ℕ
middle = old ++ entry 2 second

second_line :
    entry 2 second
    ≡ 50 ∷ 32 ∷ 32 ∷ 32 ∷ 50 ∷ 48 ∷ 50 ∷ 49 ∷ 45 ∷ 49 ∷ 45 ∷ 50 ∷ 32 ∷ 51 ∷ 58 ∷ 52 ∷ 58 ∷ 53 ∷ 10
      ∷ []
unfolding entry
second_line = refl

old_ends : used_at_end 0 old ≡ 0
unfolding used_at_end
old_ends = refl

one_logged : main (some old) (second ∷ []) ≡ some middle
unfolding main
one_logged = refl

main-restart_example :
    main (some middle) (second ∷ second ∷ [])
    ≡ main (some old) ((second ∷ []) ++ (second ∷ second ∷ []))
main-restart_example =
    main-restart old (second ∷ []) (second ∷ second ∷ []) middle old_ends one_logged
