-- ===== src/Alarms.antt =====
-- `module_load` and `module_unload` of 30.信号专题/anytimer/anytimer.c and mytab/mytbf.c: the action of SIGALRM
-- and the interval timer of the process, which the module takes at its first use and gives back at the exit.
-- An alarm may come before any call while the timer runs.
pub mod Order
mod Tests
use apue_li_huiqin.Base.{ℕ, suc, ◌+◌, Bool, true, false, List, [], ◌∷◌, ◌++◌}

-- What happens at SIGALRM: what the program had before, or the handler of the module.
pub data Handler : Type 0 where
  earlier : Handler
  alrm_action : Handler

pub data Action : Type 0 where
  set_handler : Action  -- sigaction(SIGALRM, &sa, &alrm_sa_save)
  start_timer : Action  -- setitimer with one second
  work : Action  -- what the program does between its first use of the module and its exit
  stop_timer : Action  -- setitimer with 0
  put_back : Action  -- sigaction(SIGALRM, &alrm_sa_save, NULL)

-- `ticks` are the alarms that the module has handled, `strays` those that have met the earlier action.
pub record Process : Type 0 where
  pub handler : Handler
  pub timer : Bool
  pub todo : List Action
  pub exited : Bool  -- by exit(1)
  pub ticks : ℕ
  pub strays : ℕ

unfoldable pub perform : Action → List Action → Process → Process
perform set_handler rest s = record s { handler = alrm_action; todo = rest }
perform start_timer rest s = record s { timer = true; todo = rest }
perform work rest s = record s { todo = rest }
perform stop_timer rest s = record s { timer = false; todo = rest }
perform put_back rest s = record s { handler = earlier; todo = rest }

-- The next call fails: anytimer.c exits, mytbf.c does not look at the answer.
unfoldable pub call_fails : Bool → List Action → Process → Process
call_fails true rest s = record s { exited = true; timer = false; todo = [] }
call_fails false rest s = record s { todo = rest }

unfoldable pub turn : Bool → Bool → List Action → Process → Process
unfolding perform call_fails
turn checks ok [] s = s
turn checks true (a ∷ rest) s = perform a rest s
turn checks false (work ∷ rest) s = perform work rest s
turn checks false (a ∷ rest) s = call_fails checks rest s

unfoldable pub deliver : Handler → Process → Process
deliver alrm_action s = record s { ticks = s.ticks + 1 }
deliver earlier s = record s { strays = s.strays + 1 }

-- A second is over.
unfoldable pub alarm : Bool → Process → Process
unfolding deliver
alarm true s = deliver s.handler s
alarm false s = s

pub data Event : Type 0 where
  second : Event
  calls : (ok : Bool) → Event

unfoldable pub run : Bool → List Event → Process → Process
unfolding turn alarm
run checks [] s = s
run checks (second ∷ es) s = run checks es (alarm s.timer s)
run checks (calls ok ∷ es) s = run checks es (turn checks ok s.todo s)

-- anytimer.c
unfoldable pub module_load : List Action
module_load = set_handler ∷ start_timer ∷ []

unfoldable pub module_unload : List Action
module_unload = stop_timer ∷ put_back ∷ []

-- mytab/mytbf.c
unfoldable pub mytbf_load : List Action
mytbf_load = set_handler ∷ start_timer ∷ []

unfoldable pub mytbf_unload : List Action
mytbf_unload = put_back ∷ stop_timer ∷ []

-- A program with no timer of its own that uses a module, works, and exits.
unfoldable pub begin : List Action → List Action → Process
begin load unload = record {
  handler = earlier;
  timer = false;
  todo = load ++ (work ∷ unload);
  exited = false;
  ticks = 0;
  strays = 0;
}
