-- ===== src/Datagram/Queue/Order.antt =====
-- The order of the messages of 34.进、线程通信专题/msg.
use mathlib.Core.List.{append_assoc, append-nil, map-append}
use apue_li_huiqin.Base.{
  ℕ, ◌%◌, ◌≡◌, refl, ap, ◌∙◌, sym, Bool, true, false, List, [], ◌∷◌, ◌++◌, map, if◌then◌else◌,
}
use apue_li_huiqin.Datagram.{Shown}
use apue_li_huiqin.Datagram.Fixed.{alan}
use apue_li_huiqin.Datagram.Queue.{
  Message, Receiver, starting, receiving, ended, System, Event, sender, receiver_runs, message,
  show, snder, msgrcv, rcver, step, run,
}

-- What a receiver has to show of a sender.
abbrev pub wanted : ℕ → ℕ → Shown
wanted rand_math rand_chinese = record {
  name = alan;
  math = rand_math % 100;
  chinese = rand_chinese % 100;
}

-- What has been sent, in the order of the senders: nothing before there is a queue.
abbrev pub sends : Event → System → List Shown
sends (sender field rand_math rand_chinese msgsnd) s =
    if s.created then if msgsnd then wanted rand_math rand_chinese ∷ [] else [] else []
sends (receiver_runs succeeds) s = []

abbrev pub all_sends : List Event → System → List Shown
all_sends [] s = []
all_sends (e ∷ es) s = sends e s ++ all_sends es (step e s)

-- What is shown or waits.
abbrev pub shown_or_waiting : System → List Shown
shown_or_waiting s = s.shown ++ map show s.queue

show-message-wanted :
    (field : List ℕ) (rand_math rand_chinese : ℕ)
    → show (message field rand_math rand_chinese) ≡ wanted rand_math rand_chinese
unfolding show message
show-message-wanted field rand_math rand_chinese = refl

abbrev system : Bool → List Message → Receiver → List Shown → ℕ → System
system created queue receiver shown turned_away = record {
  created = created;
  queue = queue;
  receiver = receiver;
  shown = shown;
  turned_away = turned_away;
}

snder-waiting :
    (field : List ℕ) (rand_math rand_chinese : ℕ) (msgsnd created : Bool) (queue : List Message)
    (receiver : Receiver) (shown : List Shown) (turned_away : ℕ)
    → shown_or_waiting (
        snder
          (message field rand_math rand_chinese)
          msgsnd
          (system created queue receiver shown turned_away))
      ≡ (shown ++ map show queue)
        ++ sends
            (sender field rand_math rand_chinese msgsnd)
            (system created queue receiver shown turned_away)
unfolding snder
snder-waiting field rand_math rand_chinese true true queue receiver shown turned_away =
    let m : Message = message field rand_math rand_chinese in
    rw (map-append show queue (m ∷ []), show-message-wanted field rand_math rand_chinese)
      (sym (append_assoc shown (map show queue) (wanted rand_math rand_chinese ∷ [])))
snder-waiting field rand_math rand_chinese false true queue receiver shown turned_away =
    sym (append-nil (shown ++ map show queue))
snder-waiting field rand_math rand_chinese msgsnd false queue receiver shown turned_away =
    sym (append-nil (shown ++ map show queue))

msgrcv-waiting :
    (ms : List Message) (s : System)
    → s.queue ≡ ms
    → shown_or_waiting (msgrcv ms s) ≡ shown_or_waiting s
unfolding msgrcv
msgrcv-waiting [] s h = refl
msgrcv-waiting (m ∷ ms) s h =
    append_assoc s.shown (show m ∷ []) (map show ms) ∙ ap (λ q. s.shown ++ map show q) (sym h)

rcver-waiting :
    (succeeds : Bool) (r : Receiver) (s : System)
    → shown_or_waiting (rcver succeeds r s) ≡ shown_or_waiting s
unfolding rcver
rcver-waiting true starting s = refl
rcver-waiting true receiving s = msgrcv-waiting s.queue s refl
rcver-waiting false starting s = refl
rcver-waiting false receiving s = refl
rcver-waiting succeeds ended s = refl

step-waiting :
    (e : Event) (s : System) → shown_or_waiting (step e s) ≡ shown_or_waiting s ++ sends e s
unfolding step
step-waiting (sender field rand_math rand_chinese msgsnd) s =
    snder-waiting field rand_math rand_chinese msgsnd s.created s.queue s.receiver s.shown
      s.turned_away
step-waiting (receiver_runs succeeds) s =
    rcver-waiting succeeds s.receiver s ∙ sym (append-nil (shown_or_waiting s))

run-waiting :
    (es : List Event) (s : System)
    → shown_or_waiting (run es s) ≡ shown_or_waiting s ++ all_sends es s
unfolding run
run-waiting [] s = sym (append-nil (shown_or_waiting s))
run-waiting (e ∷ es) s =
    run-waiting es (step e s)
    ∙ ap (λ l. l ++ all_sends es (step e s)) (step-waiting e s)
    ∙ append_assoc (shown_or_waiting s) (sends e s) (all_sends es (step e s))

abbrev pub empty : System
empty = system false [] starting [] 0

-- However senders and the receiver take turns and whatever calls fail: what the receiver has shown, and
-- behind it what waits in the queue, are the messages sent since the receiver has made the queue, in
-- their order, each once and with its own name and marks.
pub run-all_sends :
    (es : List Event) → (run es empty).shown ++ map show (run es empty).queue ≡ all_sends es empty
run-all_sends es = run-waiting es empty
