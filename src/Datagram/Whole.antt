-- ===== src/Datagram/Whole.antt =====
-- What the receiver of 35.网络编程专题/报式套接字/变长的包体 shows of what its sender has sent.
use mathlib.Core.List.{append_assoc}
use mathlib.Core.Option
use apue_li_huiqin.Base.{
  ℕ, ◌+◌, ◌%◌, ◌^◌, ◌<◌, ◌≡◌, refl, ap, ap₂, ◌∙◌, true, Option, some, none, List, [], ◌∷◌, ◌++◌,
  arith, length, drop, map, All, length-append,
}
use apue_li_huiqin.Datagram.{
  rcver, shown, htonl, until_zero, recvfrom, message, Calls, sent, snder, send_name, Shown, show,
  receive, buffer_size, arraymax,
}
use apue_li_huiqin.Datagram.Bytes.{ntohl-htonl, until_zero-name, recvfrom_fits}

length-message :
    (name : List ℕ) (rand_math rand_chinese : ℕ)
    → length (message name rand_math rand_chinese) ≡ 9 + length name
unfolding message htonl
length-message name rand_math rand_chinese = omega (arith, length-append name (0 ∷ []))

-- In a buffer with a message in front, whatever stands behind it.
show-message :
    (name : List ℕ) (rand_math rand_chinese : ℕ) (beyond rest : List ℕ)
    → All (λ c. 0 < c) name
    → show beyond (message name rand_math rand_chinese ++ rest)
      ≡ record { name = name; math = rand_math % 100; chinese = rand_chinese % 100 }
unfolding show message
show-message name rand_math rand_chinese beyond rest h =
    let tail : List ℕ = name ++ 0 ∷ [] in
    let named : until_zero ((tail ++ rest) ++ beyond) ≡ name =
      rw (append_assoc, append_assoc) (until_zero-name name (rest ++ beyond) h) in
    let marks : rand_math % 100 < 2 ^ 32 = omega arith in
    let more_marks : rand_chinese % 100 < 2 ^ 32 = omega arith in
    λ i. record {
      name = named i;
      math = ntohl-htonl (rand_math % 100) (htonl (rand_chinese % 100) ++ (tail ++ rest)) marks i;
      chinese = ntohl-htonl (rand_chinese % 100) (tail ++ rest) more_marks i;
    }

-- A message that fits into the buffer of the receiver.
shown_message :
    (name : List ℕ) (rand_math rand_chinese : ℕ) (buffer beyond : List ℕ)
    → All (λ c. 0 < c) name
    → length name < arraymax
    → show beyond (recvfrom buffer_size (some (message name rand_math rand_chinese)) buffer)
      ≡ record { name = name; math = rand_math % 100; chinese = rand_chinese % 100 }
shown_message name rand_math rand_chinese buffer beyond h short =
    let datagram : List ℕ = message name rand_math rand_chinese in
    ap (show beyond) (
      recvfrom_fits buffer_size datagram buffer
        (omega (arith, length-message name rand_math rand_chinese)))
    ∙ show-message name rand_math rand_chinese beyond (drop (length datagram) buffer) h

send_name-sent :
    (calls : Calls) (name : List ℕ) (rand_math rand_chinese : ℕ) (datagram : List ℕ)
    → send_name calls name rand_math rand_chinese ≡ sent datagram
    → (message name rand_math rand_chinese ≡ datagram) × (length name < arraymax)
unfolding send_name
send_name-sent calls name rand_math rand_chinese datagram e = ground arith

-- A student's name, and what `rand` has answered for the two marks.
pub record Student : Type 0 where
  pub name : List ℕ
  pub rand_math : ℕ
  pub rand_chinese : ℕ

abbrev pub datagram_of : Student → List ℕ
datagram_of s = message s.name s.rand_math s.rand_chinese

abbrev pub shown_of : Student → Shown
shown_of s = record { name = s.name; math = s.rand_math % 100; chinese = s.rand_chinese % 100 }

abbrev pub all_succeed : Calls
all_succeed = record { malloc = true; socket = true; last = true }

-- The sender sends this student's message: it does not find the name too long.
abbrev pub IsSent : Student → Type 0
IsSent s =
    All (λ c. 0 < c) s.name
    × (snder all_succeed (some s.name) s.rand_math s.rand_chinese ≡ sent (datagram_of s))

shown_sent :
    (s : Student) (buffer beyond : List ℕ)
    → IsSent s
    → show beyond (recvfrom buffer_size (some (datagram_of s)) buffer) ≡ shown_of s
unfolding snder
shown_sent s buffer beyond h =
    let made = send_name-sent all_succeed s.name s.rand_math s.rand_chinese (datagram_of s) h.1 in
    shown_message s.name s.rand_math s.rand_chinese buffer beyond h.0 made.1

-- The messages in their order, and the last one again where `recvfrom` fails.
abbrev pub in_turn : Shown → List (Option Student) → List Shown
in_turn last [] = []
in_turn last (none ∷ answers) = last ∷ in_turn last answers
in_turn last (some s ∷ answers) = shown_of s ∷ in_turn (shown_of s) answers

abbrev pub AllSent : List (Option Student) → Type 0
AllSent [] = Unit {0}
AllSent (none ∷ answers) = AllSent answers
AllSent (some s ∷ answers) = IsSent s × AllSent answers

receive-in_turn :
    (beyond buffer : List ℕ) (last : Shown) (answers : List (Option Student))
    → AllSent answers
    → show beyond buffer ≡ last
    → receive beyond buffer (map (Option.map datagram_of) answers) ≡ in_turn last answers
unfolding receive recvfrom
receive-in_turn beyond buffer last [] h e = refl
receive-in_turn beyond buffer last (none ∷ answers) h e =
    ap₂ (λ s ss. s ∷ ss) e (receive-in_turn beyond buffer last answers h e)
receive-in_turn beyond buffer last (some s ∷ answers) h e =
    let now : List ℕ = recvfrom buffer_size (some (datagram_of s)) buffer in
    let shown_now = shown_sent s buffer beyond h.0 in
    ap₂ (λ s ss. s ∷ ss) shown_now (receive-in_turn beyond now (shown_of s) answers h.1 shown_now)

-- Whatever `malloc` has given and whatever lies behind it, the receiver shows the messages that the sender
-- sends in the order in which they come, each with its own whole name and marks, and nothing of an earlier,
-- longer name: the sender's limit on names is enough for the buffer. Where `recvfrom` fails behind the first message, it shows the message before once more.
pub rcver-in_turn :
    (beyond buffer : List ℕ) (first : Student) (answers : List (Option Student))
    → IsSent first
    → AllSent answers
    → rcver all_succeed beyond buffer
        (some (datagram_of first) ∷ map (Option.map datagram_of) answers)
      ≡ shown (shown_of first ∷ in_turn (shown_of first) answers)
unfolding rcver receive
rcver-in_turn beyond buffer first answers h hs =
    let now : List ℕ = recvfrom buffer_size (some (datagram_of first)) buffer in
    let shown_now = shown_sent first buffer beyond h in
    ap shown (
      ap₂ (λ s ss. s ∷ ss) shown_now
        (receive-in_turn beyond now (shown_of first) answers hs shown_now))
