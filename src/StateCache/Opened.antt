-- ===== src/StateCache/Opened.antt =====
-- What every reader of an envelope begins with: core/statecache's `IsCacheEnvelope`, `Decode` and
-- `ParseOps`, one after the other.
use panaudia.Base.{Option, none, some, List, if◌then◌else◌, not}
use panaudia.Base.Keys.{Text}
use panaudia.StateCache.{Op}
use panaudia.StateCache.JsonOps.{JsonOp, JsonText, parsed, failed, parse_ops}
use panaudia.StateCache.Wire.{ok, refused, decode, is_cache_envelope}

-- The envelope with its operations, `none` where it is none or does not decode or parse.
unfoldable pub open_envelope : JsonText → Text → Option (Op × List (JsonOp × Text))
open_envelope json payload =
    if not (is_cache_envelope payload) then none else elim (decode payload) [
      | refused e ↦ none
      | ok op ↦ elim (parse_ops json op.value) [ failed e ↦ none | parsed ops ↦ some (op, ops) ]
    ]
