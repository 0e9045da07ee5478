-- ===== src/Writers/Channels.antt =====
-- core/panaudia_server/data_writer.go: a data channel of a WebRTC client that may not be open yet.
-- `AttachAttributesChannel`, `AttachEntityChannel` and `AttachSpaceChannel` are one function on their
-- channels here, and so are the three that send or buffer.
pub mod Opening
use panaudia.Base.{ℕ, Bool, true, false, List, [], ◌∷◌, ◌++◌, if◌then◌else◌, length}
use panaudia.Base.Keys.{Text}
use panaudia.Space.Pending.{push}

-- A data channel and its pending messages; one that is not open is nil.
pub record Channel : Type 0 where
  pub is_open : Bool
  pub pending : List Text
  pub pending_bytes : ℕ

abbrev pub new_channel : Channel
new_channel = record { is_open = false; pending = []; pending_bytes = 0 }

-- `trimPending`
unfoldable pub trim_pending : List Text → ℕ → Text → List Text × ℕ
trim_pending pending total cp = push length cp pending total

-- `sendOrBufferAttrs`, `sendOrBufferEntity` and `sendOrBufferSpace`: the channel, and what it sends.
unfoldable pub send_or_buffer : Channel → Text → Channel × List Text
send_or_buffer ch payload =
    if ch.is_open
    then (ch, payload ∷ [])
    else let (pending, total) = trim_pending ch.pending ch.pending_bytes payload in
      (record ch { pending = pending; pending_bytes = total }, [])

-- What attaching an open channel does: it sends what waited.
unfoldable pub attach : Channel → Channel × List Text
attach ch = (record { is_open = true; pending = []; pending_bytes = 0 }, ch.pending)

-- Messages in their order
unfoldable pub send_all : Channel → List Text → Channel × List Text
send_all ch [] = (ch, [])
send_all ch (m ∷ ms) =
    let (next, sent) = send_or_buffer ch m in
    let (last, more) = send_all next ms in (last, sent ++ more)
