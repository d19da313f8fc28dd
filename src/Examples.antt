-- ===== src/Examples.antt =====
-- Tests and concrete runs of the other modules, over a database that is held in memory.
mod Memory
mod CoreRuns
mod AuthRuns
mod HandlerRuns
mod LoginRuns
mod ProxyRuns
mod ServerRuns
mod AdminRuns
mod TableRuns
mod SshRuns
mod ConnectRuns
