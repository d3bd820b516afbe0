-- ===== src/State.antt =====
-- The package `state`: the connection's state machine, and the states that admit a command.
pub mod Transitions
pub mod Machine
