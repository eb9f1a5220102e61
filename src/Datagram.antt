-- ===== src/Datagram.antt =====
-- 35.网络编程专题/报式套接字/变长的包体: a sender of one datagram with a name of any length up to a limit, and
-- its receiver. Memory and datagrams are lists of bytes, and a struct is packed. What `rand` answers and
-- which calls succeed are arguments; a receiver blocks where no datagram comes.
pub mod Bytes
pub mod Whole
pub mod Fixed
pub mod Queue
mod Tests
use apue_li_huiqin.Base.{
  ℕ, zero, suc, ◌+◌, ◌-◌, ◌*◌, ◌/◌, ◌%◌, Bool, true, false, Option, none, some, List, [], ◌∷◌, ◌++◌,
  ltb, ◌==◌, if◌then◌else◌, length, take, drop,
}

abbrev pub arraymax : ℕ
arraymax = 20 - 8 - 8

-- sizeof(struct msg_st)
abbrev pub sizeof_msg : ℕ
sizeof_msg = 4 + 4 + 1

-- The bytes of `htonl(n)` in memory: the highest first.
unfoldable pub htonl : ℕ → List ℕ
htonl n = (n / 0x1000000 % 256) ∷ (n / 0x10000 % 256) ∷ (n / 0x100 % 256) ∷ (n % 256) ∷ []

-- `ntohl` of the four bytes in front; the buffers always have so many.
unfoldable pub ntohl : List ℕ → ℕ
ntohl (a ∷ b ∷ c ∷ d ∷ rest) = ((a * 256 + b) * 256 + c) * 256 + d
ntohl rest = 0

pub data Sent : Type 0 where
  usage : Sent
  too_long : Sent
  malloc_failed : Sent
  socket_failed : Sent
  sendto_failed : Sent
  sent : (datagram : List ℕ) → Sent

pub record Calls : Type 0 where
  pub malloc : Bool
  pub socket : Bool
  pub last : Bool  -- sendto of the sender, bind of the receiver

-- The message in the memory of `sizeof(struct msg_st) + strlen(name)` bytes: `strcpy` writes the name and
-- its end from the field `name` on.
unfoldable pub message : List ℕ → ℕ → ℕ → List ℕ
unfolding htonl
message name rand_math rand_chinese =
    htonl (rand_math % 100) ++ (htonl (rand_chinese % 100) ++ (name ++ 0 ∷ []))

-- `main` of snder.c with at least two arguments, of which `name` is the second.
unfoldable pub send_name : Calls → List ℕ → ℕ → ℕ → Sent
unfolding message
send_name calls name rand_math rand_chinese =
    if ltb (arraymax - 1) (length name)
    then too_long
    else if calls.malloc
    then if calls.socket
      then if calls.last then sent (message name rand_math rand_chinese) else sendto_failed
      else socket_failed
    else malloc_failed

unfoldable pub snder : Calls → Option (List ℕ) → ℕ → ℕ → Sent
unfolding send_name
snder calls none rand_math rand_chinese = usage
snder calls (some name) rand_math rand_chinese = send_name calls name rand_math rand_chinese

-- What the receiver prints of a message.
pub record Shown : Type 0 where
  pub name : List ℕ
  pub math : ℕ
  pub chinese : ℕ

-- "%s": up to the zero byte.
unfoldable pub until_zero : List ℕ → List ℕ
until_zero [] = []
until_zero (c ∷ cs) = let rest = until_zero cs in if c == 0 then [] else c ∷ rest

-- `recvfrom(sd, rbufp, size, …)`: the bytes of a longer datagram are lost, and behind a shorter one the
-- buffer stays as it was. Its answer is not looked at; where it fails, the buffer stays.
unfoldable pub recvfrom : ℕ → Option (List ℕ) → List ℕ → List ℕ
recvfrom size none buffer = buffer
recvfrom size (some datagram) buffer = take size datagram ++ drop (length datagram) buffer

-- `size` of the receiver.
abbrev pub buffer_size : ℕ
buffer_size = sizeof_msg + arraymax - 1

-- The three prints; `beyond` is what the memory has behind the buffer.
unfoldable pub show : List ℕ → List ℕ → Shown
unfolding until_zero ntohl
show beyond buffer = record {
  name = until_zero (drop 8 buffer ++ beyond);
  math = ntohl buffer;
  chinese = ntohl (drop 4 buffer);
}

-- The loop of rcver.c, for the answers of `recvfrom`.
unfoldable pub receive : List ℕ → List ℕ → List (Option (List ℕ)) → List Shown
unfolding recvfrom show
receive beyond buffer [] = []
receive beyond buffer (answer ∷ answers) =
    let now = recvfrom buffer_size answer buffer in show beyond now ∷ receive beyond now answers

pub data Received : Type 0 where
  no_memory : Received
  no_socket : Received
  no_port : Received
  shown : List Shown → Received

-- `main` of rcver.c; `buffer` is what `malloc` gives.
unfoldable pub rcver : Calls → List ℕ → List ℕ → List (Option (List ℕ)) → Received
unfolding receive
rcver calls beyond buffer answers =
    if calls.malloc
    then if calls.socket
      then if calls.last then shown (receive beyond buffer answers) else no_port
      else no_socket
    else no_memory
