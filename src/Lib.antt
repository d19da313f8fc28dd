-- ===== src/Lib.antt =====
-- gojump is an SSH jump host: a user logs in to it, chooses one of the assets that the database
-- grants, and is connected to that asset while the session is checked, recorded and, where asked
-- for, confirmed by a reviewer. This library models the rules of that program.
--
-- The parts, as files here and in the repository:
--
--   Prelude     shared names, Boolean tests, lists measured by native numbers, Go strings as lists
--               of bytes, ℤ for int and int64, maps as association lists, strconv.Atoi, and
--               what the listings use of fmt (Format).
--   Common      pkg/common: the completion helpers (Prefix) and the colours (Color) of util.go, the
--               widths and the cells of table.go (Table).
--   Model       pkg/model: the rows (Model), ExpireInfo.IsExpired (Expire), ProtocolPort and
--               IsSupportProtocol (Protocol), keySort with CompareIP of pkg/handler/asset.go (Order).
--   Store       pkg/core/genji.go: the loops over the results of a query.
--   Core        pkg/core: the state that all connections share. Otp: otp.go. Login: the limit on
--               failures of auth.go. Timers: the goroutines that sleep and then delete. Sessions:
--               session.go and log.go. Users: user.go. Tickets: the login tickets of auth.go.
--               Assets: asset.go, node.go, systemUser.go and utils.go. Listings: the lines that
--               the administrator reads.
--   Auth        pkg/auth: userAuth.go (UserAuth), ssh.go and its two handlers in
--               pkg/server/sshHandler.go (Ssh), loginConfirm.go (Confirm).
--   Handler     pkg/handler: pageInfo.go (Page), the searches of selectHandler.go and asset.go
--               (Search), UserSelectHandler (Select), the lines of dispatch.go (Dispatch), the
--               way from a chosen row or a direct login to a connection (Login), a whole session
--               with its refreshes and logins (Session), checkMaxIdleTime (Idle), the loop of
--               admin.go (Admin).
--   Srvconn     pkg/srvconn: the loop of SSHManager.run and UserSSHClient (Clients), the options,
--               the methods of authentication and the count of sessions of ssh.go (Ssh).
--   Proxy       pkg/proxy: NewServer and checkRequiredAuth (Server), Server.Proxy with its deferred
--               calls and validateLoginConfirm (Server.Flow), getSSHConn, getCacheSSHConn and
--               NewSSHConnection of pkg/srvconn/connSsh.go (Connect), SwitchSession.Bridge with the
--               recorder (Bridge).
--   Server      pkg/server: the VS Code sessions, their registry and the channels that are forwarded
--               (Vscode), SessionHandler (Session).
--   Examples    a database in memory, and the theorems at concrete inputs.
--
-- How they interact: Auth.Ssh calls Auth.UserAuth, which calls Core.Login and Core.Users, which calls
-- Core.Otp. Proxy.Server.Flow calls Core.Sessions, and Auth.Confirm, which polls Core.Tickets. The
-- table of Handler.Select holds the rows that Core.Assets sends. Server.Session hands a connection to
-- Handler.Login, Handler.Session, Handler.Admin or Server.Vscode; the first two lead to
-- Proxy.Server.Flow. What other connections do to the shared state meanwhile is a function that the
-- definition takes, and the theorems hold for every such function. Handler.Admin takes none: its lines
-- follow each other with nothing between them.
--
-- In Proxy.Server.Flow the dial is an argument that gives a connection or an error; Proxy.Connect has
-- the code behind it, over the cache of Srvconn.Clients and the clients of Srvconn.Ssh.
--
-- State is passed explicitly: an operation takes the record Core, Select, World or State and returns
-- the new one. What happens in an order of its own is a list: the events of a select loop, the
-- requests of a client, the attempts of a connection, the timers that end. A critical section under a
-- mutex is one step; verifyOTP, which takes its lock twice, also has a version in two steps
-- (Core.Otp.Race). An error is a value of Error, and a run-time panic is a result of its own.
--
-- Parameters: genjidb is the record Engine, any database that answers queries, and TicketSql says
-- what its two statements on tickets mean. bcrypt, the dial and the cached clients of
-- golang.org/x/crypto/ssh, package sort (it keeps the elements of a page, and may do anything with the
-- order of the nodes), the clock, fresh UUIDs and random passwords are arguments.
--
-- Bounds: the failure counter is a uint64 and wraps at 2 ^ 64; offsets and sizes, which the code keeps
-- non-negative, are natural numbers, and `int` values that are read from a setting or a row are ℤ
-- without overflow. Times are natural numbers of nanoseconds or Unix seconds in ℤ. Texts are bytes;
-- where the code folds case, ASCII is meant. The only fuel is that of the binary search, which is the
-- length of the shortest text, that of the walk through pages, one more than the rows, where the
-- theorem says that no next page is left, and that of the resizing of a table, one more than the
-- bytes to give out, where the theorem gives the result.
--
-- Not modelled: pkg/ssh and pkg/common/terminal.go, which are copies of other projects; drawing on
-- the terminal, logging, files and key encodings; the pipes of a wrapped session, the node tree
-- and the callback for the tab key in pkg/handler; the copying between two channels and the
-- start of the listener in pkg/server, and pkg/server/sshConn.go, which nothing calls.
pub mod Prelude
pub mod Common
pub mod Model
pub mod Store
pub mod Core
pub mod Auth
pub mod Handler
pub mod Srvconn
pub mod Proxy
pub mod Server
pub mod Examples
