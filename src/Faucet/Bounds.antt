-- ===== src/Faucet/Bounds.antt =====
-- The length of the queue of faucet/src/faucet.rs, and the answers of `push`.
use cape.Base.{ℕ, ◌+◌, ◌≡◌, ◌≤◌, refl, false, some, [], ◌∷◌, ◌++◌, nat_eq, ok, arith, length}
use cape.Base.Map.{Map, insert, contains_key}
use cape.Faucet.Types.{UserPubKey, AppendLog}
use cape.Faucet.Index.{Index, persist_entry, insert_key}
use cape.Faucet.Queue.{Queue, push, insert_request, send, is_full}

length-insert :
    (key n : ℕ) (m : Map UserPubKey ℕ)
    → contains_key m key ≡ false
    → length (insert key n m) ≡ length m + 1
length-insert key n [] h = refl
length-insert key n ((j, w) ∷ m) h = ground (arith, length-insert key n m)

module _ (log : AppendLog) where
  insert_key-length :
      (key : UserPubKey) (i : Index log)
      → length (insert_key log key i).0.index ≤ length i.index + 1
  unfolding insert_key persist_entry
  insert_key-length key i = ground (arith, length-insert key 0 i.index)

  -- With a limit, `push` keeps the number of keys within it, however it ends.
  push-bounded :
      (key : UserPubKey) (q : Queue log) (max_len : ℕ)
      → q.max_len ≡ some max_len
      → length q.index.index ≤ max_len
      → length (push log key q).0.index.index ≤ max_len
  unfolding push insert_request send insert_key persist_entry
  push-bounded key q max_len limited below = ground (arith, length-insert key 0 q.index.index)

  -- A push that succeeds, on an open channel, had room, and its key was new: it is now in the index
  -- without grants, and it waits at the end of the channel.
  push-ok :
      (key : UserPubKey) (q q' : Queue log)
      → q.closed ≡ false
      → push log key q ≡ (q', ok tt)
      → (is_full log q.max_len (length q.index.index) ≡ false)
        × (contains_key q.index.index key ≡ false)
        × (q'.index.index ≡ insert key 0 q.index.index)
        × (q'.channel ≡ q.channel ++ (key ∷ []))
  unfolding push insert_request send insert_key persist_entry
  push-ok key q q' open_channel h = ground arith
