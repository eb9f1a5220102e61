-- ===== src/Stamp/Cut.antt =====
-- The stamp that a child of 36.项目实例/动态进程/server.c prints into `linebuf`, and what client.c beside it,
-- which reads like that of 35.网络编程专题/流式套接字, makes of it.
use mathlib.Core.List.{append_assoc}
use apue_li_huiqin.Base.{
  take_all, take-append, ℕ, zero, suc, ◌+◌, ◌-◌, ◌/◌, ◌%◌, ◌^◌, ◌<◌, ◌≡◌, refl, true, false, List,
  [], ◌∷◌, ◌++◌, arith, length, take, length-take, length-append, inl, inr, Bool-cases, ltb,
}
use apue_li_huiqin.Pool.Child.{stamp_len, digits_from, linebufsize}
use apue_li_huiqin.Stamp.{digits, sprintf, is_digit, client, scanned}
use apue_li_huiqin.Stamp.Digits.{begins}
use apue_li_huiqin.Stamp.Reads.{fscanf-take}

-- `snprintf(linebuf, LINEBUFSIZE, "%lld\\r\\n", stamp)`: what stands in `linebuf` then.
unfoldable pub snprintf : ℕ → List ℕ
unfolding sprintf
snprintf stamp = take (linebufsize - 1) (sprintf stamp) ++ 0 ∷ []

-- `send(client_sd, linebuf, len, 0)` of the whole length; `beyond` is what the memory has behind that.
unfoldable pub sent : ℕ → List ℕ → List ℕ
unfolding snprintf stamp_len
sent stamp beyond = take (stamp_len stamp) (snprintf stamp ++ beyond)

digits_from-digits : (fuel n : ℕ) → digits_from fuel n ≡ length (digits fuel n)
unfolding digits_from digits
digits_from-digits zero n = refl
digits_from-digits (suc fuel) n = elim (Bool-cases (ltb n 10)) [
  | inl small ↦ rw small refl
  | inr large ↦ rw large (
      omega (
        arith,
        digits_from-digits fuel (n / 10),
        length-append (digits fuel (n / 10)) ((48 + n % 10) ∷ []),
      ))
]

cut-begins :
    (i j : ℕ) (beyond : List ℕ) → begins (take j (take i (13 ∷ 10 ∷ []) ++ 0 ∷ beyond)) ≡ false
unfolding is_digit
cut-begins i zero beyond = refl
cut-begins zero (suc j) beyond = refl
cut-begins (suc i) (suc j) beyond = refl

-- Whatever lies behind the line buffer, a client of a pool's child reads, with no error, the first seven
-- digits of the stamp: the stamp itself where it has no more, and a smaller number else.
pub client-sent :
    (stamp : ℕ) (beyond : List ℕ)
    → stamp < 10 ^ 19
    → client true true true true (sent stamp beyond)
      ≡ scanned false (stamp / 10 ^ (stamp_len stamp - 9))
unfolding client sent snprintf stamp_len sprintf
client-sent stamp beyond h =
    let ds : List ℕ = digits 18 stamp in
    let cut : List ℕ = take (7 - length ds) (13 ∷ 10 ∷ []) in
    let len : digits_from 18 stamp ≡ length ds = digits_from-digits 18 stamp in
    let kept : take (length ds + 2) (take 7 ds) ≡ take 7 ds =
      take_all (length ds + 2) (take 7 ds) (omega (arith, length-take 7 ds)) in
    let less : length ds + 2 - 9 ≡ length ds - 7 = omega arith in
    rw
      (
        len,
        less,
        take-append 7 ds (13 ∷ 10 ∷ []),
        append_assoc,
        append_assoc,
        take-append (length ds + 2) (take 7 ds) (cut ++ 0 ∷ beyond),
        kept,
      )
      (fscanf-take stamp 7 (take (length ds + 2 - length (take 7 ds)) (cut ++ 0 ∷ beyond)) h
        (omega arith) (cut-begins (7 - length ds) (length ds + 2 - length (take 7 ds)) beyond))
