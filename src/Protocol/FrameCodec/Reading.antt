-- ===== src/Protocol/FrameCodec/Reading.antt =====
-- `Reader::Append` against the parse of the unread bytes and the new ones.
use server_core.Base.{ℕ, suc, ◌≡◌, sym, subst, some, List, ◌++◌, arith, length}
use server_core.Protocol.FrameCodec.{no_error, Reader, append_loop, append}
use server_core.Protocol.FrameCodec.Stream.{parse}
use server_core.Protocol.FrameCodec.Pump.{unread, IsReady}
use server_core.Protocol.FrameCodec.Loop.{Appended, append_loop-Appended}

append-open :
    {S : Type 0} (callback : S → List ℕ → S) (r : Reader) (context : S) (bytes : List ℕ)
    → IsReady r
    → r.terminal_error ≡ no_error
    → append (some callback) r context bytes
      ≡ append_loop callback (suc (length bytes)) r context bytes 0
unfolding append
append-open callback r context bytes v e = ground (arith, v.idle)

-- One call to `Append` hands over, in order, exactly the frames that the unread bytes and the new
-- ones hold together. Its error is that of the parse (`TooLarge` or none: never `InvalidFormat`),
-- which also becomes the terminal error. What the parse leaves is in the store or was not taken,
-- and without an error all new bytes were taken. The reader stays ready.
pub append-Appended :
    {S : Type 0} (callback : S → List ℕ → S) (r : Reader) (context : S) (bytes : List ℕ)
    → IsReady r
    → r.terminal_error ≡ no_error
    → Appended callback r context bytes 0
        (parse r.max_body_size (unread r ++ bytes))
        (append (some callback) r context bytes)
append-Appended callback r context bytes v e =
    subst (Appended callback r context bytes 0 (parse r.max_body_size (unread r ++ bytes)))
      (sym (append-open callback r context bytes v e))
      (append_loop-Appended callback (suc (length bytes)) r context bytes 0 v e (omega arith))
