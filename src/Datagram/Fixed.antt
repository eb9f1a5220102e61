-- ===== src/Datagram/Fixed.antt =====
-- 35.网络编程专题/报式套接字/固定的包体: the name stands in an array of 11 bytes before the marks. The sender's
-- message is a local variable, so behind the name it holds whatever its memory held.
pub mod Whole
use apue_li_huiqin.Base.{
  ℕ, zero, suc, ◌+◌, ◌%◌, Bool, true, false, Option, none, some, List, [], ◌∷◌, ◌++◌, if◌then◌else◌,
  length, take, drop,
}
use apue_li_huiqin.Datagram.{
  htonl, ntohl, until_zero, recvfrom, Sent, usage, socket_failed, sendto_failed, sent, Shown,
  Received, no_socket, no_port, shown,
}

abbrev pub namesize : ℕ
namesize = 11

-- "Alan"
abbrev pub alan : List ℕ
alan = 65 ∷ 108 ∷ 97 ∷ 110 ∷ []

-- The memory of `sbuf.name` behind `strcpy`.
unfoldable pub strcpy : List ℕ → List ℕ → List ℕ
strcpy name field = name ++ (0 ∷ drop (length name + 1) field)

unfoldable pub message : List ℕ → ℕ → ℕ → List ℕ
unfolding strcpy htonl
message field rand_math rand_chinese =
    strcpy alan field ++ (htonl (rand_math % 100) ++ htonl (rand_chinese % 100))

-- `main` of snder.c: whether there is an argument and which calls succeed.
unfoldable pub snder : Bool → Bool → Bool → List ℕ → ℕ → ℕ → Sent
unfolding message
snder args socket sendto field rand_math rand_chinese =
    if args
    then if socket
      then if sendto then sent (message field rand_math rand_chinese) else sendto_failed
      else socket_failed
    else usage

-- sizeof(struct msg_st)
abbrev pub sizeof_msg : ℕ
sizeof_msg = namesize + 4 + 4

unfoldable pub show : List ℕ → List ℕ → Shown
unfolding until_zero ntohl
show beyond buffer = record {
  name = until_zero (buffer ++ beyond);
  math = ntohl (drop namesize buffer);
  chinese = ntohl (drop (namesize + 4) buffer);
}

-- The loop of rcver.c, for the answers of `recvfrom`.
unfoldable pub receive : List ℕ → List ℕ → List (Option (List ℕ)) → List Shown
unfolding recvfrom show
receive beyond buffer [] = []
receive beyond buffer (answer ∷ answers) =
    let now = recvfrom sizeof_msg answer buffer in show beyond now ∷ receive beyond now answers

-- `main` of rcver.c: whether `socket` and `bind` succeed; `buffer` is the memory of its local variable.
unfoldable pub rcver : Bool → Bool → List ℕ → List ℕ → List (Option (List ℕ)) → Received
unfolding receive
rcver socket bind beyond buffer answers =
    if socket then if bind then shown (receive beyond buffer answers) else no_port else no_socket
