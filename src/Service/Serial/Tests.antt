-- ===== src/Service/Serial/Tests.antt =====
-- Runs of 35.网络编程专题/流式套接字/server.c, and the theorem about it.
use apue_li_huiqin.Base.{ℕ, ◌≡◌, refl, false, some, List, [], ◌∷◌}
use apue_li_huiqin.Service.Serial.{Accept, main, exits, failed, accept_failed, bind_failed}
use apue_li_huiqin.Service.Serial.Whole.{whole, all_succeed}

abbrev two_stamps : List ℕ
two_stamps = 1609459200 ∷ 1609459201 ∷ []

-- The connection behind the failure comes too late.
abbrev rest : List Accept
rest = whole 1609459203 ∷ []

bind_stops : main (record all_succeed { bind = false }) rest ≡ exits bind_failed
unfolding main
bind_stops = refl

accept_stops : (main all_succeed (failed ∷ rest)).exit ≡ some accept_failed
unfolding main
accept_stops = refl
