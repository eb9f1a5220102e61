-- ===== src/Stamp/Tests.antt =====
-- Runs of 35.网络编程专题/流式套接字, and the theorems about them at concrete stamps.
use apue_li_huiqin.Base.{
  ℕ, ◌/◌, ◌^◌, ◌-◌, ◌≡◌, refl, true, false, some, List, [], ◌∷◌, arith, length, ◌==◌, if◌then◌else◌,
  replicate,
}
use apue_li_huiqin.Stamp.{digits, sprintf, server_job, client, bad_format, scanned}
use apue_li_huiqin.Pool.Child.{stamp_len}
use apue_li_huiqin.Stamp.Reads.{client-server_job}
use apue_li_huiqin.Stamp.Cut.{sent, client-sent}

abbrev stamp : ℕ
stamp = 1609459200

abbrev line : List ℕ
line = 49 ∷ 54 ∷ 48 ∷ 57 ∷ 52 ∷ 53 ∷ 57 ∷ 50 ∷ 48 ∷ 48 ∷ 13 ∷ 10 ∷ []

sprintf_line : sprintf stamp ≡ line
unfolding sprintf
sprintf_line = refl

-- A sign and spaces before the number, and a line that has none.
fscanf_sign : client true true true true (32 ∷ 45 ∷ 55 ∷ 13 ∷ 10 ∷ []) ≡ scanned true 7
unfolding client
fscanf_sign = refl

fscanf_letter : client true true true true (97 ∷ 55 ∷ []) ≡ bad_format
unfolding client
fscanf_letter = refl

four_sent : server_job stamp (some 4) ≡ some (49 ∷ 54 ∷ 48 ∷ 57 ∷ [])
unfolding server_job
four_sent = refl

client-server_job_example :
    client true true true true (49 ∷ 54 ∷ 48 ∷ 57 ∷ [])
    ≡ (if 4 == 0 then bad_format else scanned false (stamp / 10 ^ (length (digits 18 stamp) - 4)))
client-server_job_example =
    client-server_job stamp 4 (49 ∷ 54 ∷ 48 ∷ 57 ∷ []) (omega arith) four_sent

abbrev zeros : List ℕ
zeros = replicate 8 0

-- Seven digits of ten.
client-sent_example :
    client true true true true (sent stamp zeros)
    ≡ scanned false (stamp / 10 ^ (stamp_len stamp - 9))
client-sent_example = client-sent stamp zeros (omega arith)

seven_read : client true true true true (sent stamp zeros) ≡ scanned false 1609459
unfolding client sent
seven_read = refl
