-- ===== src/StateCache.antt =====
-- core/statecache: the last-writer-wins cache of state operations. This file has the operation
-- record and the counter of operation ids; `Store` has the ring of segments with its compaction.
pub mod Store
pub mod Wire
pub mod Opened
pub mod JsonOps
use panaudia.Base.{ℕ, suc, ◌+◌, ◌%◌, ◌^◌, Bool}
use panaudia.Base.Keys.{Text}

-- `Op`. `created_at` counts nanoseconds from Go's zero time, so that 0 is the zero time.
pub record Op : Type 0 where
  pub topic : Text
  pub key : Text
  pub value : Text
  pub op_id : ℕ
  pub node_id : ℕ
  pub tombstone : Bool
  pub created_at : ℕ

-- `OpIDCounter`: the value of its atomic `uint64`.
pub record OpIdCounter : Type 0 where
  pub next : ℕ

-- `Assign`: the id, and the counter after it.
pub assign : OpIdCounter → ℕ × OpIdCounter
assign c = let n = (c.next + 1) % 2 ^ 64 in (n, record { next = n })

-- `Current`
pub current : OpIdCounter → ℕ
current c = c.next
