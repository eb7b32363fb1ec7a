-- ===== src/Tests.antt =====
-- Runs of the program's parts on small inputs.
mod Concrete
mod Scanning
mod Texts
mod Duplicates
mod Output
mod Text
mod Trees
mod Tools
mod Commands
