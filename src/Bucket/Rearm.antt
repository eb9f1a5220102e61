-- ===== src/Bucket/Rearm.antt =====
-- 30.信号专题/mytfb_2/mytbf.c, the buckets of Bucket/Signal with `alarm` and `signal` in place of a timer that
-- repeats: the handler asks for the next alarm itself, and takes every SIGALRM for one of its own.
pub mod Seconds
use apue_li_huiqin.Base.{
  ℕ, zero, suc, ◌+◌, Bool, true, false, Option, none, some, if◌then◌else◌, set,
}
use apue_li_huiqin.Bucket.{Mytbf, Jobs}
use apue_li_huiqin.Bucket.Signal.{Tbf, fill_all, open_at, get_free_pos}

-- The table, whether an alarm is to come, and whether `alrm_handler` is the handler.
pub record Clock : Type 0 where
  pub tbf : Tbf
  pub armed : Bool
  pub installed : Bool

-- `alrm_handler`, with `alarm(1)`.
unfoldable pub alrm_handler : Clock → Clock
unfolding fill_all
alrm_handler c = record c { tbf = record c.tbf { job = fill_all c.tbf.job }; armed = true }

-- A SIGALRM of whatever origin; the default handler would end the program, which is left out.
unfoldable pub sigalrm : Clock → Clock
unfolding alrm_handler
sigalrm c = if c.installed then alrm_handler c else c

-- A second: an alarm that was asked for comes, once.
unfoldable pub second : Clock → Clock
unfolding sigalrm
second c = if c.armed then sigalrm (record c { armed = false }) else c

-- `module_load`; `loads` counts its calls.
unfoldable pub module_load : Clock → Clock
module_load c = record c {
  tbf = record c.tbf { loads = c.tbf.loads + 1 };
  armed = true;
  installed = true;
}

unfoldable pub load_once : Clock → Clock
unfolding module_load
load_once c =
    let loaded = module_load c in
    if c.tbf.inited then c else record loaded { tbf = record loaded.tbf { inited = true } }

-- `mytbf_init`; the entry is taken as in Bucket/Signal.
unfoldable pub mytbf_init : Bool → ℕ → ℕ → Clock → Clock × Option ℕ
unfolding load_once open_at
mytbf_init memory cps burst c =
    let l = load_once c in
    let o = open_at memory cps burst l.tbf (get_free_pos l.tbf.job) in (record l { tbf = o.0 }, o.1)
