-- ===== src/LowLevel/Transfer.antt =====
-- `ll_read` and `ll_write` of lib/lowlevel.c.
use afpfs_ng.Common.{
  ℕ, zero, suc, ◌+◌, ◌%◌, [], ◌∷◌, Bytes, Bool, true, false, ltb, if◌then◌else◌, length, drop, Ret,
  val, fail, eacces, ebusy, eio,
}
use afpfs_ng.LowLevel.Locks.{has_ext, width, ll_handle_locking, ll_handle_unlocking}
use afpfs_ng.Proto.Calls.{Call, read, read_ext, write, write_ext}
use afpfs_ng.Proto.Codes.{access_denied, lock_err, misc_err, param_err, eof_err}
use afpfs_ng.Volume.{Volume, World, Reply, M, request}

-- The offset and the size are cut to the width of the parameters.
abbrev pub read_call : Bool → (forkid offset size : ℕ) → Call
read_call ext forkid offset size =
    if ext
    then read_ext forkid (offset % width ext) (size % width ext)
    else read forkid (offset % width ext) (size % width ext)

abbrev pub write_call : Bool → (forkid offset size : ℕ) → Bytes → Call
write_call ext forkid offset size bytes =
    if ext
    then write_ext forkid (offset % width ext) (size % width ext) bytes
    else write forkid (offset % width ext) (size % width ext) bytes

-- What `ll_read` makes of the reply: its result, what it has put into the buffer, and `*eof`.
abbrev pub read_result : Reply → Ret × Bytes × Bool
read_result r = elim r.code [
  | access_denied ↦ (fail eacces, r.contents, false)
  | lock_err ↦ (fail ebusy, r.contents, false)
  | misc_err ↦ (fail eio, r.contents, false)
  | param_err ↦ (fail eio, r.contents, false)
  | eof_err ↦ (val (length r.contents), r.contents, true)
  | _ ↦ (val (length r.contents), r.contents, false)
]

unfoldable pub ll_read : World → (size offset forkid : ℕ) → M (Ret × Bytes × Bool)
ll_read w size offset forkid v =
    let locked = ll_handle_locking w forkid offset size v in
    let r = request w (read_call (has_ext v) forkid offset size) locked.1 in
    let unlocked = ll_handle_unlocking w forkid offset size r.1 in
    let after : (Ret × Bytes × Bool) × Volume =
      (if unlocked.0 then (fail eio, r.0.contents, false) else read_result r.0, unlocked.1) in
    if locked.0 then ((fail ebusy, [], false), locked.1) else after

-- The loop of `ll_write` over the bytes that are left, the first of which goes to `offset`. The
-- source sets the result of the request to 0 before it looks at it, so that no reply stops the
-- loop. The result is `*totalwritten`.
unfoldable pub write_chunks : World → (fuel forkid offset : ℕ) → Bytes → (written : ℕ) → M ℕ
write_chunks w zero forkid offset bytes written v = (written, v)
write_chunks w (suc fuel) forkid offset [] written v = (written, v)
write_chunks w (suc fuel) forkid offset (x ∷ xs) written v =
    let left = length (x ∷ xs) in
    let sizetowrite = if ltb left v.tx_quantum then left else v.tx_quantum in
    let sent = (request w (write_call (has_ext v) forkid offset sizetowrite (x ∷ xs)) v).1 in
    write_chunks w fuel forkid (offset + sizetowrite) (drop sizetowrite (x ∷ xs))
      (written + sizetowrite) sent

-- The result and `*totalwritten`. A lock or an unlock that fails sets `ret`, but what is returned
-- is `-err`, and `err` is 0.
unfoldable pub ll_write : World → Bytes → (offset forkid : ℕ) → M (Ret × ℕ)
unfolding write_chunks
ll_write w bytes offset forkid v =
    let size = length bytes in
    let locked = ll_handle_locking w forkid offset size v in
    let all = write_chunks w size forkid offset bytes 0 locked.1 in
    let unlocked = ll_handle_unlocking w forkid offset size all.1 in
    if locked.0 then ((val 0, 0), locked.1) else ((val 0, all.0), unlocked.1)
