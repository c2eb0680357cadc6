-- ===== src/Scheduler/Signals.antt =====
-- pa4_1/scheduler.c, setup_sig_handlers, and worker.c, the masks of start_worker: which thread
-- handles which signal. A set of signals is a test. The system calls on valid signals succeed.
use unix_sys_prog.Common.{Bool, false, not, ◌&&◌, ◌||◌, Option, none, some, if◌then◌else◌}
use unix_sys_prog.Scheduler.Memory.{Signal, sigalrm, sigusr1, sigusr2, sigterm, same_signal}

abbrev pub SigSet : Type 0
SigSet = Signal → Bool

-- The functions that are set up as handlers.
pub data Handler : Type 0 where
  timer_handler suspend_thread cancel_thread : Handler

-- `struct sigaction`; the handler stands for `sa_handler`, and the flags are 0.
pub record Action : Type 0 where
  pub handler : Handler
  pub mask : SigSet

-- The handlers of the process, and what a thread blocks.
pub record Signals : Type 0 where
  pub actions : Signal → Option Action
  pub blocked : SigSet

abbrev pub sigemptyset : SigSet
sigemptyset g = false

abbrev pub sigaddset : Signal → SigSet → SigSet
sigaddset g set f = same_signal f g || set f

-- `sigprocmask` and `pthread_sigmask`
unfoldable pub block : SigSet → Signals → Signals
block set s = record s { blocked = λ g. set g || s.blocked g }

unfoldable pub unblock : SigSet → Signals → Signals
unblock set s = record s { blocked = λ g. not (set g) && s.blocked g }

unfoldable pub sigaction : Signal → Action → Signals → Signals
sigaction g a s = record s { actions = λ f. if same_signal f g then some a else s.actions f }

-- The mask that `initsignal` puts into the action.
unfoldable pub initsignal : Signal → SigSet
initsignal g = sigaddset g sigemptyset

-- `setup_sig_handlers`
unfoldable pub setup_sig_handlers : Signals → Signals
unfolding block unblock sigaction initsignal
setup_sig_handlers s =
    let s1 = sigaction sigalrm (record { handler = timer_handler; mask = initsignal sigalrm }) s in
    let s2 = sigaction sigterm (record { handler = cancel_thread; mask = initsignal sigterm }) s1 in
    let s3 =
      sigaction sigusr1 (record { handler = suspend_thread; mask = initsignal sigusr1 }) s2 in
    let s4 = unblock (sigaddset sigusr1 (sigaddset sigalrm sigemptyset)) s3 in
    block (sigaddset sigusr2 (sigaddset sigterm sigemptyset)) s4

-- The masks of a worker, which has those of the thread that created it.
unfoldable pub worker_masks : Signals → Signals
unfolding block unblock
worker_masks s =
    unblock (sigaddset sigterm (sigaddset sigusr1 sigemptyset))
      (block (sigaddset sigusr2 (sigaddset sigalrm sigemptyset)) s)

-- What a signal to a thread does: it is kept back, handled, or left to the system.
pub data Delivery : Type 0 where
  kept_back : Delivery
  handled : Handler → Delivery
  default_action : Delivery

abbrev act : Option Action → Delivery
act none = default_action
act (some a) = handled a.handler

unfoldable pub deliver : Signals → Signal → Delivery
deliver s g = if s.blocked g then kept_back else act (s.actions g)
