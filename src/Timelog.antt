-- ===== src/Timelog.antt =====
-- 28.目录和用户操作/timelog.c: a log with numbered lines, one for each second, that is continued when the
-- program is started again. A file is the list of its bytes; what `localtime` answers is an argument, and
-- a run is looked at for so many seconds.
pub mod Restart
mod Tests
use apue_li_huiqin.Base.{
  ℕ, zero, suc, ◌+◌, ◌-◌, Bool, true, false, ◌||◌, Option, none, some, List, [], ◌∷◌, ◌++◌, ◌==◌,
  if◌then◌else◌, length, replicate,
}
use apue_li_huiqin.Stamp.{digits}

abbrev pub buffsize : ℕ
buffsize = 1024

-- struct tm
pub record Tm : Type 0 where
  pub tm_year : ℕ
  pub tm_mon : ℕ
  pub tm_mday : ℕ
  pub tm_hour : ℕ
  pub tm_min : ℕ
  pub tm_sec : ℕ

-- while (fgets(buf, BUFFSIZE, fp) != NULL) count++; with so many bytes in `buf`: a call ends behind a
-- newline, with a full buffer, or at the end of the file, where it answers NULL if it has read nothing.
unfoldable pub count_from : ℕ → List ℕ → ℕ
count_from used [] = if used == 0 then 0 else 1
count_from used (c ∷ cs) =
    let next = count_from 0 cs in
    let same = count_from (used + 1) cs in
    if (c == 10) || (used + 2 == buffsize) then next + 1 else same

-- "%d" of an `int`, and "%-4d".
unfoldable pub decimal : ℕ → List ℕ
unfolding digits
decimal n = digits 9 n

unfoldable pub padded : ℕ → List ℕ
unfolding decimal
padded n = decimal n ++ replicate (4 - length (decimal n)) 32

-- A number and the character behind it.
unfoldable pub field : ℕ → ℕ → List ℕ → List ℕ
unfolding decimal
field n separator rest = decimal n ++ (separator ∷ rest)

-- "%-4d%d-%d-%d %d:%d:%d\n"
unfoldable pub entry : ℕ → Tm → List ℕ
unfolding padded field
entry count mytm =
    let time = field mytm.tm_hour 58 (field mytm.tm_min 58 (field mytm.tm_sec 10 [])) in
    padded count
    ++ field (mytm.tm_year + 1900) 45 (field (mytm.tm_mon + 1) 45 (field mytm.tm_mday 32 time))

-- The second loop: each line is flushed to the end of the file.
unfoldable pub log : ℕ → List Tm → List ℕ → List ℕ
unfolding entry
log count [] file = file
log count (mytm ∷ times) file = log (count + 1) times (file ++ entry (count + 1) mytm)

-- `main`, where `fopen` has made or opened the file; `none` is a failure, with status 1.
unfoldable pub main : Option (List ℕ) → List Tm → Option (List ℕ)
unfolding count_from log
main none times = none
main (some file) times = some (log (count_from 0 file) times file)
