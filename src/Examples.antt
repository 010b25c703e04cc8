-- ===== src/Examples.antt =====
-- Concrete inputs: tests of the definitions, and the theorems applied to them.
mod Instances
mod Names
mod Lists
mod Lines
mod Messages
mod Registration
mod Languages
mod Users
mod Replies
mod Who
mod Sessions
mod Files
mod Connections
mod Daemons
mod Loggers
mod Events
mod Listeners
mod Charsets
mod Programs
mod Passwords
mod Machines
mod Welcomes
