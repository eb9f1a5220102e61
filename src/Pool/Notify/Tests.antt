-- ===== src/Pool/Notify/Tests.antt =====
-- Runs of `main` of 36.项目实例/动态进程/server.c, step by step, and the theorems about it.
use apue_li_huiqin.Base.{
  ℕ, zero, suc, ◌≡◌, refl, ◌⊎◌, true, false, some, List, [], ◌∷◌, ◌++◌, map, arith,
}
use apue_li_huiqin.Pool.{Server, glyph, find_slot, fork_at, add_1_server}
use apue_li_huiqin.Pool.Counts.{IsCounted}
use apue_li_huiqin.Pool.Notify.{
  waits, aborted, System, decide, scan_slot, test_busy, show_slot, advance, marked, move, store,
  notify, wake, stores, notifies, wakes, moves, Setup, block, loaded, set_up, Reach, begin, later,
}
use apue_li_huiqin.Pool.Notify.Held.{Held}
use apue_li_huiqin.Pool.Notify.Always.{Reach-Held}
use apue_li_huiqin.Pool.Notify.Current.{Reach-shown}

abbrev all_succeed : Setup
all_succeed = record { mmap = true; socket = true; setsockopt = true; bind = true; listen = true }

-- So many steps of the parent, in which every process is alive and `fork` answers 100.
unfoldable many : ℕ → System → System
unfolding move
many zero s = s
many (suc n) s = many n (move true (some 100) s)

many-Reach : (n : ℕ) {s : System} → Reach all_succeed s → Reach all_succeed (many n s)
unfolding many
many-Reach zero r = r
many-Reach (suc n) r = many-Reach n (later r (moves true (some 100)))

abbrev at : ℕ → Server
at state = record { pid = some 100; state = state }

-- Five children are started, the first gets busy and says so.
abbrev told : System
told = notify 0 (store 0 1 (at 0) (many 6 (block loaded)))

told-Reach : Reach all_succeed told
unfolding set_up block many move advance marked add_1_server find_slot fork_at store notify
told-Reach =
    later (later (many-Reach 6 (begin (block loaded) refl)) (stores 0 1 (at 0) refl (omega arith)))
      (notifies 0 refl)

-- The parent wakes, and comes to its next wait after 20 slots with one second read, a child started and 20
-- characters.
abbrev waiting : System
waiting = many 45 (wake told)

waiting-Reach : Reach all_succeed waiting
unfolding many move advance marked add_1_server find_slot fork_at store notify block
waiting-Reach = many-Reach 45 (later told-Reach (wakes refl refl))

waiting-phase : (waiting.phase ≡ waits) × (waiting.pending ≡ false) × (waiting.unreported ≡ 0)
unfolding many move advance marked add_1_server find_slot fork_at store notify wake block decide
    scan_slot test_busy show_slot
waiting-phase = (refl, refl, refl)

Reach-shown_example :
    IsCounted waiting.pool
    × ((waiting.pool.shown ≡ [])
        ⊎ ((before : List ℕ) × (waiting.pool.shown
              ≡ before ++ (map glyph waiting.pool.serverpool ++ (10 ∷ [])))))
Reach-shown_example = Reach-shown waiting-Reach waiting-phase.0 waiting-phase.1 waiting-phase.2

Reach-Held_example : Held waiting.between waiting.phase waiting.pool
Reach-Held_example = Reach-Held waiting-Reach

-- The parent has read STATE_BUSY at the first slot, and the child stores STATE_IDEL before the second read:
-- the parent aborts.
abbrev raced : System
raced = many 1 (store 0 0 (at 1) (many 1 (wake told)))

raced-aborts : raced.phase ≡ aborted
unfolding many move advance marked add_1_server find_slot fork_at store notify wake block scan_slot
    test_busy
raced-aborts = refl

raced-Reach : Reach all_succeed raced
unfolding many move advance marked add_1_server find_slot fork_at store notify wake block scan_slot
raced-Reach = many-Reach 1 (
    later (many-Reach 1 (later told-Reach (wakes refl refl)))
      (stores 0 0 (at 1) refl (omega arith)))
