-- ===== src/Datagram/Bytes.antt =====
-- The bytes of numbers and names in the messages of 35.网络编程专题/报式套接字.
use apue_li_huiqin.Base.{
  ℕ, ◌^◌, ◌<◌, ◌≤◌, ◌≡◌, refl, List, [], ◌∷◌, ◌++◌, some, arith, length, drop, All, take_all,
}
use apue_li_huiqin.Datagram.{htonl, ntohl, until_zero, recvfrom}

pub ntohl-htonl : (n : ℕ) (rest : List ℕ) → n < 2 ^ 32 → ntohl (htonl n ++ rest) ≡ n
unfolding ntohl htonl
ntohl-htonl n rest h = omega arith

pub length-htonl : (n : ℕ) → length (htonl n) ≡ 4
unfolding htonl
length-htonl n = refl

-- The name of a message ends where it did at the sender, whatever comes behind it.
pub until_zero-name :
    (name rest : List ℕ) → All (λ c. 0 < c) name → until_zero (name ++ (0 ∷ rest)) ≡ name
unfolding until_zero
until_zero-name [] rest h = refl
until_zero-name (c ∷ cs) rest h = ground (arith, until_zero-name cs rest)

-- A datagram that the buffer has room for stands at its front.
pub recvfrom_fits :
    (size : ℕ) (datagram buffer : List ℕ)
    → length datagram ≤ size
    → recvfrom size (some datagram) buffer ≡ datagram ++ drop (length datagram) buffer
unfolding recvfrom
recvfrom_fits size datagram buffer h = rw (take_all size datagram h) refl
