-- ===== src/Service/Serial/Whole.antt =====
-- What the clients of 35.网络编程专题/流式套接字/server.c read.
use apue_li_huiqin.Base.{ℕ, true, some, List, length}
use apue_li_huiqin.Stamp
use apue_li_huiqin.Stamp.{sprintf, Outcome}
use apue_li_huiqin.Service.Serial.{Setup, Accept}

-- A connection at this time whose `send` takes the whole line.
abbrev pub whole : ℕ → Accept
whole stamp = Accept.client stamp (some (length (sprintf stamp)))

abbrev pub reads : List ℕ → Outcome
reads text = Stamp.client true true true true text

abbrev pub all_succeed : Setup
all_succeed = record { socket = true; setsockopt = true; bind = true; listen = true }
