-- ===== src/Network/Closing/Order.antt =====
-- The thread pointer, the socket and the close request while no exception ends a thread.
use poco_echo.Base.{
  List, Distinct, remove_first-Distinct, ◌≡◌, refl, [], ◌∷◌, true, false, none, some, done, arith,
  if◌then◌else◌,
}
use poco_echo.Poco.{Socket}
use poco_echo.Effect.{Effect, closed}
use poco_echo.Network.Handlers.{add_packet_handler-Distinct, remove_packet_handler-remove_first}
use poco_echo.Network.LifeCycle.{
  Network, null, live, start_update_thread, is_initialized, close, exit, try_start,
}
use poco_echo.Network.Closing.{
  made, adds, removes, outside, joining, Threads, Step, opens, closes, waits, returns,
}

-- The thread is there just while it runs, the socket is there while it runs, and only an owner that
-- waits for it has asked it to end.
pub record IsOrderly (t : Threads) : Type 0 where
  pub thread : t.network.thread ≡ (if t.updates then live else null)
  pub opened : t.updates ≡ true → is_initialized t.network ≡ true
  pub requested : t.network.close_requested ≡ true → (t.owner ≡ joining) × (t.updates ≡ true)
  pub waiting : t.owner ≡ joining → t.updates ≡ true → t.network.close_requested ≡ true
  pub handlers : Distinct t.network.packet_handlers
  pub shut : t.owner ≡ joining → t.updates ≡ false → is_initialized t.network ≡ false

pub Step-IsOrderly : {t u : Threads} → Step t u → IsOrderly t → IsOrderly u
unfolding try_start close exit
Step-IsOrderly {t} (opens n none ok es o e) v = record {
  thread = ground (arith, v.thread);
  opened = ground (arith, v.opened);
  requested = ground (arith, v.thread, v.requested);
  waiting = ground arith;
  handlers = ground (arith, v.handlers);
  shut = ground arith;
}
Step-IsOrderly {t} (opens n (some s) ok es o e) v = record {
  thread = ground (arith, v.thread);
  opened = ground (arith, v.opened);
  requested = ground (arith, v.thread, v.requested);
  waiting = ground arith;
  handlers = ground (arith, v.handlers);
  shut = ground arith;
}
Step-IsOrderly (closes n es o e) v = record {
  thread = ground (arith, v.thread);
  opened = ground (arith, v.thread);
  requested = ground (arith, v.thread, v.requested);
  waiting = ground arith;
  handlers = ground (arith, v.handlers);
  shut = ground arith;
}
Step-IsOrderly (waits n es o e) v = record {
  thread = ground (arith, v.thread);
  opened = ground (arith, v.opened, v.thread);
  requested = ground (arith, v.thread);
  waiting = ground (arith, v.thread);
  handlers = ground (arith, v.handlers);
  shut = ground (arith, v.thread);
}
Step-IsOrderly (adds f o few) v = record {
  thread = v.thread;
  opened = v.opened;
  requested = v.requested;
  waiting = v.waiting;
  handlers = add_packet_handler-Distinct _ f few v.handlers;
  shut = v.shut;
}
Step-IsOrderly {t} (removes f o few) v = record {
  thread = v.thread;
  opened = v.opened;
  requested = v.requested;
  waiting = v.waiting;
  handlers =
      rw (remove_packet_handler-remove_first t.network.packet_handlers f few)
        (remove_first-Distinct f t.network.packet_handlers v.handlers);
  shut = v.shut;
}
Step-IsOrderly (returns o u) v = record {
  thread = v.thread;
  opened = v.opened;
  requested = ground (arith, v.requested);
  waiting = ground arith;
  handlers = ground (arith, v.handlers);
  shut = ground arith;
}

-- `StartUpdateThread` of an owner whose thread does not run.
pub start_update_thread-IsOrderly :
    (t : Threads)
    → t.owner ≡ outside
    → t.updates ≡ false
    → is_initialized t.network ≡ true
    → IsOrderly t
    → IsOrderly (record t { network = start_update_thread t.network; updates = true })
start_update_thread-IsOrderly t o u e v = record {
  thread = refl;
  opened = λ h. e;
  requested = ground (arith, v.requested);
  waiting = ground arith;
  handlers = ground (arith, v.handlers);
  shut = ground arith;
}

-- `Exit` of the thread that runs.
pub exit-IsOrderly :
    (t : Threads) (n : Network) (es : List Effect)
    → t.updates ≡ true
    → exit t.network ≡ done (n, es)
    → IsOrderly t
    → IsOrderly (record t { network = n; updates = false })
unfolding exit
exit-IsOrderly t n es u e v = record {
  thread = ground (arith, v.thread);
  opened = ground arith;
  requested = ground (arith, v.thread);
  waiting = ground arith;
  handlers = ground (arith, v.handlers);
  shut = ground (arith, v.thread);
}

pub made-IsOrderly : IsOrderly made
made-IsOrderly = record {
  thread = refl;
  opened = ground arith;
  requested = ground arith;
  waiting = ground arith;
  handlers = tt;
  shut = ground arith;
}

pub exit-live :
    (n : Network) (s : Socket)
    → n.socket ≡ some s
    → n.thread ≡ live
    → exit n
      ≡ done (record n { socket = none; thread = null; close_requested = false }, closed s ∷ [])
unfolding exit
exit-live n s there runs = rw (there, runs) refl
