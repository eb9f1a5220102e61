-- ===== src/Pool/Child.antt =====
-- `server_job` of 36.项目实例/动态进程/server.c: a child of the pool, as the list of its actions for a
-- list of results of `accept`; at the end of the list the child blocks in `accept`.
use apue_li_huiqin.Base.{
  ℕ, zero, suc, ◌+◌, ◌/◌, ◌^◌, ◌≤◌, ◌<◌, ◌≡◌, Bool, not, ◌||◌, map, List, [], ◌∷◌, ◌++◌, arith, ltb,
  ◌==◌, if◌then◌else◌,
}
use apue_li_huiqin.Pool.{state_idel, state_busy}

pub data Accept : Type 0 where
  client : (stamp : ℕ) → Accept  -- a connection; `time(NULL)` then answers `stamp`
  failed : (errno : ℕ) → Accept

pub data Action : Type 0 where
  store : (state : ℕ) → Action  -- serverpool[pos].state = state
  notify : Action  -- kill(ppid, SIG_NOTIFY)
  send : (len : ℕ) → Action
  close : Action
  leave : (status : ℕ) → Action  -- exit(status)

abbrev pub eintr : ℕ
eintr = 4

abbrev pub eagain : ℕ
eagain = 11

abbrev pub linebufsize : ℕ
linebufsize = 8

-- The number of decimal digits; a `time_t` has at most 19.
unfoldable pub digits_from : ℕ → ℕ → ℕ
digits_from zero n = 1
digits_from (suc fuel) n = let rest = 1 + digits_from fuel (n / 10) in if ltb n 10 then 1 else rest

-- `snprintf(linebuf, LINEBUFSIZE, "%lld\\r\\n", stamp)` returns the length of the whole text, also
-- where the buffer cuts it short.
unfoldable pub stamp_len : ℕ → ℕ
unfolding digits_from
stamp_len stamp = digits_from 18 stamp + 2

-- `errno != EINTR || errno != EAGAIN`
pub gives_up : ℕ → Bool
gives_up errno = not (errno == eintr) || not (errno == eagain)

pub server_job : List Accept → List Action
server_job [] = store state_idel ∷ notify ∷ []
server_job (client stamp ∷ rs) =
    store state_idel
    ∷ notify
    ∷ store state_busy
    ∷ notify
    ∷ send (stamp_len stamp)
    ∷ close
    ∷ server_job rs
server_job (failed errno ∷ rs) =
    let rest = server_job rs in
    store state_idel ∷ notify ∷ (if gives_up errno then leave 1 ∷ [] else rest)

-- What a child does for the connections with these stamps, one after the other.
abbrev pub served : List ℕ → List Action
served [] = []
served (stamp ∷ ts) =
    store state_idel
    ∷ notify
    ∷ store state_busy
    ∷ notify
    ∷ send (stamp_len stamp)
    ∷ close
    ∷ served ts

-- A child serves its connections in order, with a change to busy and back for each, until `accept`
-- fails for the first time. Then it exits with status 1, whatever `errno` is, EINTR and EAGAIN
-- included, and nothing that would come later is done: the test before `continue` never fails.
pub server_job-failed :
    (ts : List ℕ) (errno : ℕ) (rs : List Accept)
    → server_job (map client ts ++ (failed errno ∷ rs))
      ≡ served ts ++ (store state_idel ∷ notify ∷ leave 1 ∷ [])
unfolding server_job gives_up
server_job-failed [] errno rs = ground arith
server_job-failed (t ∷ ts) errno rs = simp (server_job-failed ts errno rs)

-- For every time stamp from 1000000 on, the length that a child passes to `send` is greater than the
-- size of its line buffer.
linebufsize-lt-stamp_len : (stamp : ℕ) → 10 ^ 6 ≤ stamp → linebufsize < stamp_len stamp
unfolding stamp_len
linebufsize-lt-stamp_len stamp h = ground arith
