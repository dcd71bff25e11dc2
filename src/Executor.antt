-- ===== src/Executor.antt =====
-- src/executor.rs: the errors of the executors. The Preview 2 executor of src/executor/p2.rs is in
-- Registration, WaitQueue, Current, WaitPoll, Dispatch, Drive and Init; Init also has the
-- initialisation of Preview 3.
pub mod Registration
pub mod WaitQueue
pub mod Dispatch
pub mod WaitPoll
pub mod Drive
pub mod Init
pub mod Current
mod Tests

pub data ExecutorError : Type 0 where
  preview2_not_initialized preview2_mode_mismatch preview2_initialization_reentrant : ExecutorError
  pollable_registration_exhausted pollable_canceled task_spawn_failed : ExecutorError
  run_until_canceled reentrant_poll stalled spawner_already_initialized : ExecutorError
