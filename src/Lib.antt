-- ===== src/Lib.antt =====
-- Models of the RTEMS example programs and what is proved of them.
--
-- The repository is a collection of small programs. Each of them is an application of the RTEMS
-- kernel, of POSIX or of ISO C threads, which are not part of it: what those return is a parameter.
--
--   Common     Boolean tests, lists, the laws of exclusive or.
--   Crc        file_io/crc/crc_32.c, crc.h and init.c: `UPDC32` is `updc32`, `crc32buf` and
--              `crc32file` keep their names. `Serial` is the shift register behind the table.
--   Complex1   led/complex1: `Queue` is LocalMessageQueuePOSIX10031c.h with MessageQueueT.h, `Server`
--              is ledServer.h, `Periodic` is periodic.c, `Menu` is menu.cc and `Program` is test.cc, whose
--              `do_test` runs the menus on the requests to the server and on the periodic threads.
--              `System` is the server with its clients and the queue between them, and `Lifetime`
--              there the constructors and destructors. `Abstract` and `View` below `Queue` are what
--              can be seen of a queue by writing and reading.
--   CommandLine  misc/adamain/rtems_init.c: `parse_arguments` with its loops `scan` and `parse_loop`;
--              `Program` is the thread that calls the Ada program with them.
--   Blink      led: `Token` is sem_server and posix_mutex_server, `Messages` is msg_server and
--              posix_message_server, `Timer` is timer and timer_server, `Condition` is
--              posix_cond_server and ratemon_cond_server, `Event` is event_server, `Rotation` is
--              led.h, and `Single` is delay, posix_delay_sleep, posix_delay_nanosleep, timeout_event, ratemon1 and ratemon2.
--   Buffer     c11/c11_cndvar01/test.c: `buffer_get` and `buffer_put` as the steps of `Step`.
--   UserDriver misc/userdrv/userdrv.c: the entries keep their names.
--   Report     posix_api/psx_*_report: `Threads` is psx_pthread_report, `Scheduler` psx_sched_report,
--              and `Objects` the reports on mutexes, condition variables, barriers, locks, queues.
--   Ticker     ticker: the tasks of low_ticker, low_ticker1, low_ticker2, ticker, ticker_stackchk;
--              `Program` is these programs, ticker_trace and ticker_posix as wholes.
--   TickWrap   misc/nanosecond_tick_wrap/init.c: the loop that prints the readings.
--   FileIo     file_io/filerdback/test.c: `read_loop`; file_io/repeated_opens/test.c: `open_loop`.
--   Restart    posix_api/psx_task_restart: the threads as the steps of `Step`.
--   Regulator  misc/regulator/regulator_example.c over the interface of `Library`.
--   ThreadKey  c11/c11_key01/test.c: the threads as the steps of `Step`.
--   ClassicSignal  classic_api/classic_signal/test.c: the loop of `Init` is `wait_loop`.
--   TriplePeriod   classic_api/triple_period/tasks.c: `absolute_period`, `rate_monotonic_period` and
--              `relative_period` are the three tasks.
--   SignalMask posix_api/psx_initial_sigmask/main.c: its functions keep their names.
--   Script     schedsim/schedsim_priority/schedsim.cc: `ProcessScript` is `process_script`.
--   TestMacros testmacros.h: `put_name`.
--
-- Numbers are natural numbers; where the source computes in a fixed width the reduction is written
-- out. `unsigned int` has 32 bits, and the width of `unsigned long` is an argument of the checksums.
-- Loops over arrays recur on the rounds left, so no fuel is needed; a task without an end is run for
-- any number of rounds, or is a step relation with its reachable states. The menus run on
-- fuel, which bounds their rounds; one unit for each line that is typed is enough, as every round
-- reads a line. The ticker programs as wholes run on fuel for fifteen rounds or more: three tasks have
-- fourteen rounds before the one that ends the program.
--
-- Not modelled: the nbench and uMon sources, which are copies of other projects, the C++ programs
-- that only call what is modelled, the drivers of LVGL, and build files; nor the other examples, which
-- are not named above. Of an example that is named, the configuration tables of the kernel and the
-- creation of its tasks and objects are left out where they do not bear on what follows.
pub mod Common
pub mod Crc
pub mod Complex1
pub mod CommandLine
pub mod Blink
pub mod Buffer
pub mod UserDriver
pub mod Report
pub mod Ticker
pub mod TickWrap
pub mod FileIo
pub mod Restart
pub mod Regulator
pub mod ThreadKey
pub mod ClassicSignal
pub mod TriplePeriod
pub mod SignalMask
pub mod Script
pub mod TestMacros
