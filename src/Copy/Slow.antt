-- ===== src/Copy/Slow.antt =====
-- The programs that write a file at a limited rate: 30.信号专题/slowcat.c (a flag set each second),
-- 30.信号专题/slowcat_2.c (tokens) and 31.线程专题/mytbf_thread_cond/main.c (a token bucket of the library
-- beside it). Rounds that fill the bucket between a fetch and the return of the rest count for the next
-- turn: both stop at the burst, so that their order makes no difference. A `Round` is what happens in
-- one turn of the outer loop: the alarms, or the rounds of the filling thread, up to the end of its
-- wait, and the answers of `read` in it. A wait that they do not end leaves the program `blocked`.
pub mod Rate
pub mod Bucket
pub mod Prefix
use apue_li_huiqin.Base.{
  ℕ, zero, suc, ◌+◌, ◌-◌, min, Bool, true, false, not, ◌||◌, Option, none, some, List, [], ◌∷◌,
  ◌++◌, ltb, ◌==◌, if◌then◌else◌, length, take, drop,
}
use apue_li_huiqin.Bucket.{
  Mytbf, Code, ret, einval, undefined, refill, mytbf_fetchtoken, mytbf_returntoken,
}
use apue_li_huiqin.Copy.{
  Answer, success, interrupted, failed, Written, write_all, Reason, usage, no_memory, no_source,
  bad_size, eof, read_error, blocked, End, resume, open_loop, opened, stop,
}

pub record Round : Type 0 where
  pub alarms : ℕ
  pub reads : List Answer

-- `while ((len = read(…)) < 0)`: a success, a failure, or `none` while all are interrupted.
pub data Reading : Type 0 where
  moved : ℕ → Reading
  broken_off pending : Reading

pub read_loop : List Answer → Reading
read_loop [] = pending
read_loop (success n ∷ rs) = moved n
read_loop (interrupted ∷ rs) = read_loop rs
read_loop (failed ∷ rs) = broken_off

-- The rest of a run: it is given the number of bytes read, the answers left for `write`, the rest of
-- the file, and what has been written.
abbrev pub Rest : Type 0
Rest = ℕ → List Answer → List ℕ → List ℕ → End

-- One turn behind the wait, with a `read` of at most `size` bytes, and `k` for the turns that follow.
pub after_read : ℕ → Reading → List Answer → List ℕ → List ℕ → Rest → End
after_read size pending ws input out k = record { reason = blocked; out = out }
after_read size broken_off ws input out k = record { reason = read_error; out = out }
after_read size (moved n) ws input out k =
    let buf = take (min (suc n) size) input in
    let w = write_all ws buf 0 (length buf) out in
    let end =
      resume w.verdict w.out (k (length buf) w.rest (drop (min (suc n) size) input) w.out) in
    if length buf == 0 then record { reason = eof; out = out } else end

abbrev pub turn : ℕ → List Answer → List Answer → List ℕ → List ℕ → Rest → End
turn size reads ws input out k = after_read size (read_loop reads) ws input out k

abbrev pub cps : ℕ
cps = 10

abbrev pub burst : ℕ
burst = 100

-- The endless loop of slowcat.c; `loop` is the flag that the handler sets.
pub slowcat_loop : List Round → Bool → List Answer → List ℕ → List ℕ → End
slowcat_loop [] loop ws input out = record { reason = blocked; out = out }
slowcat_loop (r ∷ rs) loop ws input out =
    let next = turn cps r.reads ws input out (λ len. slowcat_loop rs false) in
    if loop || not (r.alarms == 0) then next else record { reason = blocked; out = out }

pub slowcat : ℕ → List Answer → List Round → List Answer → List ℕ → End
slowcat argc sources rounds ws input =
    if ltb argc 2
    then stop usage
    else opened (open_loop sources) no_source (slowcat_loop rounds false ws input [])

-- `alrm_handler` of slowcat_2.c, and so many runs of it.
pub alrm_handler : ℕ → ℕ
alrm_handler token = let t = token + 1 in if ltb burst t then burst else t

pub arrive : ℕ → ℕ → ℕ
unfolding alrm_handler
arrive zero token = token
arrive (suc n) token = arrive n (alrm_handler token)

-- The endless loop of slowcat_2.c. `token--` runs only where it is not 0.
pub slowcat_2_loop : List Round → ℕ → List Answer → List ℕ → List ℕ → End
slowcat_2_loop [] token ws input out = record { reason = blocked; out = out }
slowcat_2_loop (r ∷ rs) token ws input out =
    let t = arrive r.alarms token in
    let next = turn cps r.reads ws input out (λ len. slowcat_2_loop rs (t - 1)) in
    if t == 0 then record { reason = blocked; out = out } else next

pub slowcat_2 : ℕ → List Answer → List Round → List Answer → List ℕ → End
slowcat_2 argc sources rounds ws input =
    if ltb argc 2
    then stop usage
    else opened (open_loop sources) no_source (slowcat_2_loop rounds 0 ws input [])

abbrev pub bufsize : ℕ
bufsize = 1024

-- So many rounds of the thread that fills the bucket.
pub refills : ℕ → Mytbf → Mytbf
refills zero me = me
refills (suc n) me = refills n (refill me)

-- `if (size - len > 0) mytbf_returntoken(tbf, size - len);`
pub give_back : ℕ → ℕ → Mytbf → Mytbf
give_back size len me = if ltb len size then (mytbf_returntoken (size - len) me).0 else me

-- What `mytbf_fetchtoken` returns decides the turn; an error ends the program with status 1.
-- A fetch has no sum, and is never undefined.
pub data Fetched : Type 0 where
  got : Mytbf → ℕ → Fetched
  refused sleeping : Fetched

pub fetched : Option (Mytbf × Code) → Fetched
fetched none = sleeping
fetched (some (me, ret size)) = got me size
fetched (some (me, einval)) = refused
fetched (some (me, undefined)) = refused

-- One turn of main.c after the fetch.
pub after_fetch :
    Fetched
    → List Answer
    → List Answer
    → List ℕ
    → List ℕ
    → (Mytbf → List Answer → List ℕ → List ℕ → End)
    → End
after_fetch sleeping reads ws input out k = record { reason = blocked; out = out }
after_fetch refused reads ws input out k = record { reason = bad_size; out = out }
after_fetch (got me size) reads ws input out k =
    turn size reads ws input out (λ len. k (give_back size len me))

-- The endless loop of main.c.
pub tbf_loop : List Round → Mytbf → List Answer → List ℕ → List ℕ → End
tbf_loop [] me ws input out = record { reason = blocked; out = out }
tbf_loop (r ∷ rs) me ws input out =
    after_fetch (fetched (mytbf_fetchtoken [] bufsize (refills r.alarms me))) r.reads ws input out
      (tbf_loop rs)

-- `main` of main.c; the `Bool` says whether `mytbf_init` returned a bucket.
pub tbf_main : Bool → ℕ → List Answer → List Round → List Answer → List ℕ → End
tbf_main bucket argc sources rounds ws input =
    if ltb argc 2
    then stop usage
    else if bucket
    then opened (open_loop sources) no_source
        (tbf_loop rounds (record { cps = cps; burst = burst; token = 0; pos = 0 }) ws input [])
    else stop no_memory
