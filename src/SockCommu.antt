-- ===== src/SockCommu.antt =====
-- CTSockCommu of ServerFrameWork/src/base/sockcommu.cpp and include/sockcommu.h: the connections of a
-- proxy behind callbacks. State has its fields and the calls that all operations share, Accept the new
-- connections, Receive the loops of `poll`, Send `sendto` and `ctrl`, Start `init` and `InitExt`, Route
-- the tables of nodes.
--
-- The registered callbacks are a parameter: a callback gets the whole state, with `buff_blob_` in it,
-- and gives back another, as it may call `sendto` or `connect` and write to the blob. What the
-- system's calls answer is an argument of each operation. The build is the one without
-- LOAD_CHECK_ENABLE and OPEN_PRINT; a pool always has a block, so nothing is caught.
pub mod State
pub mod Accept
pub mod Receive
pub mod Send
pub mod Start
pub mod Route
pub mod Expire
pub mod Stream
pub mod Admit
pub mod Drain
pub mod Waits
mod Tests
