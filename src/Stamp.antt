-- ===== src/Stamp.antt =====
-- 35.网络编程专题/流式套接字: `server_job` of server.c, which sends a time stamp as text, and client.c, which
-- reads it (FMT_STAMP of proto.h). A text is the list of its bytes; stamps are not negative and stay
-- below 10 ^ 19, as a `long long` does. `fscanf` also waits for what comes behind the line, that is, until
-- the server closes: the text is all that has come by then.
pub mod Digits
pub mod Reads
pub mod Cut
mod Tests
use apue_li_huiqin.Base.{
  ℕ, zero, suc, ◌+◌, ◌-◌, ◌*◌, ◌/◌, ◌%◌, Bool, true, false, ◌&&◌, ◌||◌, Option, none, some, List,
  [], ◌∷◌, ◌++◌, leb, ltb, ◌==◌, if◌then◌else◌, take,
}

-- The decimal digits of `n`, with fuel for one digit less than it has.
unfoldable pub digits : ℕ → ℕ → List ℕ
digits zero n = (48 + n) ∷ []
digits (suc fuel) n =
    let rest = digits fuel (n / 10) ++ (48 + n % 10) ∷ [] in
    if ltb n 10 then (48 + n) ∷ [] else rest

-- `sprintf(buf, "%lld\\r\\n", stamp)`
unfoldable pub sprintf : ℕ → List ℕ
unfolding digits
sprintf stamp = digits 18 stamp ++ 13 ∷ 10 ∷ []

abbrev pub bufsize : ℕ
bufsize = 1024

-- What comes at the client, for the answer of `send`: where it fails, the process exits with status 1,
-- and where it takes only `len` bytes, the others are never sent.
unfoldable pub server_job : ℕ → Option ℕ → Option (List ℕ)
unfolding sprintf
server_job stamp none = none
server_job stamp (some len) = some (take len (sprintf stamp))

unfoldable pub is_space : ℕ → Bool
is_space c = (leb 9 c && leb c 13) || (c == 32)

unfoldable pub is_digit : ℕ → Bool
is_digit c = leb 48 c && leb c 57

unfoldable pub skip_spaces : List ℕ → List ℕ
unfolding is_space
skip_spaces [] = []
skip_spaces (c ∷ cs) = let rest = skip_spaces cs in if is_space c then rest else c ∷ cs

unfoldable pub read_digits : ℕ → List ℕ → ℕ
unfolding is_digit
read_digits value [] = value
read_digits value (c ∷ cs) =
    let rest = read_digits (value * 10 + (c - 48)) cs in if is_digit c then rest else value

-- At least one digit.
unfoldable pub magnitude : List ℕ → Option ℕ
unfolding is_digit read_digits
magnitude [] = none
magnitude (c ∷ cs) = if is_digit c then some (read_digits 0 (c ∷ cs)) else none

pub data Outcome : Type 0 where
  usage : Outcome
  socket_failed : Outcome
  connect_failed : Outcome
  fdopen_failed : Outcome
  bad_format : Outcome
  scanned : (negative : Bool) (value : ℕ) → Outcome

abbrev pub outcome : Bool → Option ℕ → Outcome
outcome negative none = bad_format
outcome negative (some value) = scanned negative value

-- The sign of "%lld".
unfoldable pub signed : List ℕ → Outcome
unfolding magnitude
signed [] = bad_format
signed (c ∷ cs) =
    if c == 45
    then outcome true (magnitude cs)
    else if c == 43
    then outcome false (magnitude cs)
    else outcome false (magnitude (c ∷ cs))

-- `fscanf(fp, FMT_STAMP, &stamp) < 1`
unfoldable pub fscanf : List ℕ → Outcome
unfolding skip_spaces signed
fscanf text = signed (skip_spaces text)

-- `main` of the client: whether there is an argument, whether each call succeeds, and what then comes.
unfoldable pub client : Bool → Bool → Bool → Bool → List ℕ → Outcome
unfolding fscanf
client args socket connect fdopen text =
    if args
    then if socket
      then if connect then if fdopen then fscanf text else fdopen_failed else connect_failed
      else socket_failed
    else usage
