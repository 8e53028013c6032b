-- ===== src/Arca/Session.antt =====
-- arca/server.cpp: what `serve` does with the bytes of one read. Sockets and threads are left out.
pub mod Printed
pub mod Wire
pub mod Serve
use reame.Base.{ℕ, Bool, true, false, Option, none, some, List, [], ◌∷◌, ◌++◌, Bytes, codes}
use reame.Cache.Store.{Files}
use reame.Arca.Archive.{Archive, dispatch}
use reame.Arca.Resp.{Fault, out_of_range, message, RespParser, feed, take_ready, resp_error}

-- How a read ends: the connection stays, it is closed, or an exception leaves the thread, which
-- ends the process.
pub data Ending : Type 0 where
  stays closes terminates : Ending

-- The handler catches RespError only, answers and closes.
unfoldable pub caught : Fault → Bytes × Ending
caught out_of_range = ([], terminates)
caught e = (resp_error (codes "ERR " ++ message e), closes)

module _ {D : Type 0} (f : Files D) where
  unfoldable pub dispatch_all : Archive D → List (List Bytes) → Archive D × Bytes
  dispatch_all a [] = (a, [])
  dispatch_all a (cmd ∷ cmds) =
      let (a', reply) = dispatch f a cmd in
      let (a'', replies) = dispatch_all a' cmds in (a'', reply ++ replies)

  unfoldable pub served :
      Archive D → RespParser × Option Fault → Archive D × RespParser × Bytes × Ending
  served a (p, some e) = let (reply, how) = caught e in (a, p, reply, how)
  served a (p, none) =
      let (p', cmds) = take_ready p in let (a', out) = dispatch_all a cmds in (a', p', out, stays)

  -- The archive, the parser, what is written back, and the end of the read. The daemon reads at most
  -- 8192 bytes at once; here a read is of any length.
  unfoldable pub serve_read :
      Archive D → RespParser → Bytes → Archive D × RespParser × Bytes × Ending
  serve_read a p bytes = served a (feed p bytes)
