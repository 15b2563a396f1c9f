-- ===== src/Env.antt =====
-- The surroundings of the services: what they call and the repository does not hold is the record
-- `Env`, what they change is the record `World`, and a call of Go is an action on a world.
pub mod Action
pub mod Calls
pub mod Memory
