-- ===== src/Datagram/Tests.antt =====
-- Runs of 35.网络编程专题/报式套接字, and the theorems about them.
use mathlib.Core.Option
use apue_li_huiqin.Base.{
  ℕ, ◌%◌, ◌≡◌, refl, some, none, Option, List, [], ◌∷◌, ◌++◌, true, false, arith, map, replicate,
}
use apue_li_huiqin.Datagram.{snder, sent, too_long, recvfrom, rcver, shown, no_port}
use apue_li_huiqin.Datagram.Whole.{
  Student, datagram_of, shown_of, in_turn, all_succeed, rcver-in_turn,
}
use apue_li_huiqin.Datagram.Fixed
use apue_li_huiqin.Datagram.Queue
use apue_li_huiqin.Datagram.Queue.{Event, sender, receiver_runs, run}
use apue_li_huiqin.Datagram.Queue.Order.{all_sends, empty, wanted, run-all_sends}
use apue_li_huiqin.Datagram.Fixed.{namesize, alan, sizeof_msg}
use apue_li_huiqin.Datagram.Fixed.Whole.{show-message}

-- "Bob" and "Al", with marks 83 and 86, and 77 and 15.
abbrev bob : Student
bob = record { name = 66 ∷ 111 ∷ 98 ∷ []; rand_math = 183; rand_chinese = 86 }

abbrev al : Student
al = record { name = 65 ∷ 108 ∷ []; rand_math = 77; rand_chinese = 915 }

abbrev filled : List ℕ
filled = replicate 12 255

bob_sent : snder all_succeed (some bob.name) 183 86 ≡ sent (datagram_of bob)
unfolding snder
bob_sent = refl

four_letters : snder all_succeed (some (65 ∷ 108 ∷ 97 ∷ 110 ∷ [])) 183 86 ≡ too_long
unfolding snder
four_letters = refl

al_sent : snder all_succeed (some al.name) 77 915 ≡ sent (datagram_of al)
unfolding snder
al_sent = refl

-- Bob, Al, a failure, and Bob.
abbrev answers : List (Option Student)
answers = some al ∷ none ∷ some bob ∷ []

rcver-in_turn_example :
    rcver all_succeed
      (7 ∷ [])
      filled
      (some (datagram_of bob) ∷ map (Option.map datagram_of) answers)
    ≡ shown (shown_of bob ∷ in_turn (shown_of bob) answers)
rcver-in_turn_example =
    rcver-in_turn (7 ∷ []) filled bob answers (omega arith, bob_sent)
      ((omega arith, al_sent), ((omega arith, bob_sent), tt))

twice_al : in_turn (shown_of bob) answers ≡ shown_of al ∷ shown_of al ∷ shown_of bob ∷ []
twice_al = refl

abbrev field : List ℕ
field = replicate 11 9

one_shown_whole :
    Fixed.show [] (recvfrom sizeof_msg (some (Fixed.message field 183 86)) filled)
    ≡ record { name = alan; math = 183 % 100; chinese = 86 % 100 }
one_shown_whole = show-message field 183 86 filled [] refl

-- A sender comes too early, one is shown, and one waits when `msgrcv` has failed.
abbrev events : List Event
events =
    sender field 1 2 true
    ∷ receiver_runs true
    ∷ sender field 183 86 true
    ∷ sender field 5 6 false
    ∷ receiver_runs true
    ∷ receiver_runs false
    ∷ sender field 77 15 true
    ∷ []

run-all_sends_example :
    (run events empty).shown ++ map Queue.show (run events empty).queue ≡ all_sends events empty
run-all_sends_example = run-all_sends events

one_shown : (run events empty).shown ≡ wanted 183 86 ∷ []
unfolding run
one_shown = refl

-- Two messages from senders whose memory held other bytes.
both_shown :
    Fixed.rcver true true [] filled
      (some (Fixed.message field 183 86) ∷ some (Fixed.message (replicate 11 255) 77 915) ∷ [])
    ≡ shown (wanted 83 86 ∷ wanted 77 15 ∷ [])
unfolding Fixed.rcver Fixed.message
both_shown = refl

port_taken : Fixed.rcver true false [] filled [] ≡ no_port
unfolding Fixed.rcver
port_taken = refl
