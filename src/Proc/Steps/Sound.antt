-- ===== src/Proc/Steps/Sound.antt =====
-- No wake-up is lost: what holds after any starts, waits and exits.
use hvos.Common.{ℕ}
use hvos.Proc.{System}
use hvos.Proc.Steps.{IsSound, Step, runs, exits, waits, starts}
use hvos.Proc.Steps.Exits.{exit-IsSound}
use hvos.Proc.Steps.Waits.{run-IsSound, wait-IsSound}
use hvos.Proc.Steps.Starts.{start-IsSound}

pub data Steps (idle : ℕ) : System → System → Type 0 where
  start : (s : System) → Steps idle s s
  step : (s t u : System) → Steps idle s t → Step idle t u → Steps idle s u

Step-IsSound : {idle : ℕ} {s t : System} → Step idle s t → IsSound s idle → IsSound t idle
Step-IsSound (runs s c st ok) sound = run-IsSound c st ok sound
Step-IsSound (exits s t code rsp from rsp' busy ne listed_ other e) sound =
    exit-IsSound code sound listed_ other rsp from rsp' busy ne e
Step-IsSound (waits s t pid child rsp from rsp' busy ne own e) sound =
    wait-IsSound pid child rsp from rsp' sound busy ne own e
Step-IsSound (starts s t p th console entry kstack pml4 proc p_new th_new unowned cur few e) sound =
    start-IsSound p th console entry kstack pml4 proc sound p_new th_new unowned cur few e

-- From a sound system, after any starts of processes, waits for own children, exits, and steps of
-- the scheduler between them, in any order, where no yield finds 1 as the second argument of
-- `schedule`, which `kernel_yield` does not set: the system is sound again, so the core is valid,
-- no two processes share a primary thread, and each process that waits in `sys_waitpid` waits for a
-- child of its own whose thread has not died. So under that condition no exit of a child is missed.
pub Steps-IsSound : {idle : ℕ} {s t : System} → IsSound s idle → Steps idle s t → IsSound t idle
Steps-IsSound sound (start s) = sound
Steps-IsSound sound (step s t u before last) = Step-IsSound last (Steps-IsSound sound before)
