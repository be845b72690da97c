-- ===== src/Tests.antt =====
-- Runs of the definitions on small inputs, and the theorems at inputs that meet their hypotheses.
mod Api
mod Gateway
mod Call
mod Sqldb
mod Collect
mod Datamodel
mod Runtime
mod Gen
mod Link
mod Devinfra
mod Auth
mod Commands
