-- ===== src/Tests/Start.antt =====
-- Examples for Epoll/Start.
use net_lib_wrapper.Prelude.{◌≡◌, refl, false, none, some, ◌==◌, if◌then◌else◌}
use net_lib_wrapper.Epoll.Start.{
  Threads, new_epoll, init, open_event, register_exit, start_worker, start_timeout, creat_default,
  ms_pthread_creat, stack_tmp, closed_both,
}
use net_lib_wrapper.Epoll.Start.Outcome.{Outcome}
use net_lib_wrapper.Tests.Scripted.{scripted}
use net_lib_wrapper.Tests.TcpTable.{four_links}

-- A thread library that makes every thread but the timeout thread.
abbrev one_thread : Threads scripted
one_thread = record {
  epoll_create = λ w. (some 3, w);
  eventfd = λ w. (some 4, w);
  attr_init =
      λ w. (some (record { stack_size = 8192; policy = 0; priority = 0; detached = false }), w);
  attr_getstacksize = λ a. some a.stack_size;
  stack_min = 16384;
  priority_max = λ p. 99;
  priority_min = λ p. 1;
  pthread_create = λ w a f para. if f == 1 then (some 77, w) else (none, w);
  pthread_join = λ w id. w;
}

-- The worker that was started stays, though its descriptors are closed.
worker_stays : (init scripted one_thread new_epoll four_links).1.0.m_pthread_id ≡ 77
unfolding init open_event register_exit start_worker start_timeout creat_default ms_pthread_creat
    stack_tmp closed_both new_epoll
worker_stays = refl
