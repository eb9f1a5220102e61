-- ===== src/Stamp/Reads.antt =====
-- What 35.网络编程专题/流式套接字/client.c reads from what server.c has sent.
use mathlib.Core.List.{append-nil}
use apue_li_huiqin.Base.{
  length-append, take-append, eq_of_some, ℕ, zero, suc, ◌-◌, ◌/◌, ◌^◌, ◌<◌, ◌≡◌, refl, ap, ◌∙◌,
  true, false, some, List, [], ◌∷◌, ◌++◌, arith, length, take, if◌then◌else◌, ◌==◌,
}
use apue_li_huiqin.Stamp.{
  bufsize, digits, sprintf, server_job, read_digits, is_digit, is_space, skip_spaces, magnitude,
  signed, fscanf, client, scanned, bad_format,
}
use apue_li_huiqin.Stamp.Digits.{length-digits, begins, read_digits-take, digits-begins}

read_digits-other :
    (value : ℕ) (rest : List ℕ) → begins rest ≡ false → read_digits value rest ≡ value
unfolding read_digits
read_digits-other value [] h = refl
read_digits-other value (c ∷ cs) h = rw h refl

fscanf-digit :
    (text : List ℕ) → begins text ≡ true → fscanf text ≡ scanned false (read_digits 0 text)
unfolding fscanf skip_spaces signed magnitude is_digit is_space
fscanf-digit [] h = cc
fscanf-digit (c ∷ cs) h = ground arith

-- A beginning of the digits and something else behind it.
pub fscanf-take :
    (stamp k : ℕ) (rest : List ℕ)
    → stamp < 10 ^ 19
    → 0 < k
    → begins rest ≡ false
    → fscanf (take k (digits 18 stamp) ++ rest)
      ≡ scanned false (stamp / 10 ^ (length (digits 18 stamp) - k))
fscanf-take stamp k rest h p e =
    fscanf-digit (take k (digits 18 stamp) ++ rest) (digits-begins 18 stamp k rest h p)
    ∙ ap (scanned false) (
        read_digits-take 18 stamp k rest h p
        ∙ read_digits-other (stamp / 10 ^ (length (digits 18 stamp) - k)) rest e)

pub line_end-begins :
    (j : ℕ) (rest : List ℕ) → begins rest ≡ false → begins (take j (13 ∷ 10 ∷ []) ++ rest) ≡ false
unfolding is_digit
line_end-begins zero rest h = h
line_end-begins (suc j) rest h = refl

-- The line is shorter than the buffer of the server.
length-sprintf : (stamp : ℕ) → length (sprintf stamp) < bufsize
unfolding sprintf
length-sprintf stamp =
    omega (arith, length-digits 18 stamp, length-append (digits 18 stamp) (13 ∷ 10 ∷ []))

nothing_sent : fscanf [] ≡ bad_format
unfolding fscanf skip_spaces signed
nothing_sent = refl

pub client-take :
    (stamp k : ℕ)
    → stamp < 10 ^ 19
    → client true true true true (take k (sprintf stamp))
      ≡ (if k == 0 then bad_format else scanned false (stamp / 10 ^ (length (digits 18 stamp) - k)))
unfolding client sprintf
client-take stamp zero h = nothing_sent
client-take stamp (suc k) h =
    let cut : List ℕ = take (suc k - length (digits 18 stamp)) (13 ∷ 10 ∷ []) in
    let some_sent : (suc k == 0) ≡ false = ground arith in
    rw (some_sent, take-append (suc k) (digits 18 stamp) (13 ∷ 10 ∷ []), ← append-nil cut)
      (fscanf-take stamp (suc k) (cut ++ []) h (omega arith)
        (line_end-begins (suc k - length (digits 18 stamp)) [] refl))

-- Of a stamp, the server sends so many bytes of the line as `send` takes. If that is none, the client
-- finds no number; else it reads, with no error, the stamp without the digits that were not sent: the
-- stamp itself where all digits have come.
pub client-server_job :
    (stamp k : ℕ) (text : List ℕ)
    → stamp < 10 ^ 19
    → server_job stamp (some k) ≡ some text
    → client true true true true text
      ≡ (if k == 0 then bad_format else scanned false (stamp / 10 ^ (length (digits 18 stamp) - k)))
unfolding server_job sprintf client
client-server_job stamp k text h e = rw (← eq_of_some e) (client-take stamp k h)
