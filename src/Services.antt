-- ===== src/Services.antt =====
-- The services that the program talks to, as interfaces with the laws that their documentation
-- gives: one database table, a Redis list, publication and string keys of Redis. `Services` is all
-- of them, and `World` is the state that they are in.
pub mod Table
pub mod Redis
pub mod World
pub mod Memory
