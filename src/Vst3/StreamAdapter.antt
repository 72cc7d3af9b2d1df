-- ===== src/Vst3/StreamAdapter.antt =====
-- `CLAPVST3StreamAdapter` (state.h): the streams of CLAP over the one of a host, which is a parameter.
pub mod Reader
pub mod Writer
mod Tests
use wrac_plugin_template.Prelude.{◌-◌, ltb, ◌^◌, length, List, if◌then◌else◌, ◌%◌, ℕ}
use wrac_plugin_template.Prelude.Int.{ℤ, pos, negsuc}

-- What the host says: `kResultOk`, `kResultFalse`, or any other code.
pub data HostResult : Type 0 where
  result_ok : HostResult
  result_false : HostResult
  failed : ℕ → HostResult

-- The answer of a call of the host: its result, the number that it sets, which is not negative, the bytes that it leaves
-- in the buffer, and its state after the call.
pub record Answer (Stream : Type 0) : Type 0 where
  pub result : HostResult
  pub count : ℕ
  pub bytes : List ℕ
  pub next : Stream

abbrev pub max_int32 : ℕ
max_int32 = 0x7FFFFFFF

pub wanted : ℕ → ℕ
wanted size = if ltb max_int32 size then max_int32 else size

-- What `read` returns, for an answer of the host.
pub returned : HostResult → ℕ → ℤ
returned result_ok count = pos count
returned result_false count = pos count
returned (failed _) _ = negsuc 0

-- `read`: the value, the bytes in the buffer and the state of the host.
pub read : {Stream : Type 0} → (Stream → ℕ → Answer Stream) → Stream → ℕ → ℤ × List ℕ × Stream
read host_read stream size =
    let answer = host_read stream (wanted size) in
    (returned answer.result answer.count, answer.bytes, answer.next)

-- The conversion to `int32`.
pub int32_of : ℕ → ℤ
int32_of size =
    let low = size % 2 ^ 32 in if ltb max_int32 low then negsuc (2 ^ 32 - 1 - low) else pos low

-- What `write` returns: the only success is `kResultOk`.
pub write_returned : HostResult → ℕ → ℤ
write_returned result_ok count = pos count
write_returned result_false _ = negsuc 0
write_returned (failed _) _ = negsuc 0

-- `write`: the value and the state of the host.
pub write : {Stream : Type 0} → (Stream → ℤ → List ℕ → Answer Stream) → Stream → List ℕ → ℤ × Stream
write host_write stream buffer =
    let answer = host_write stream (int32_of (length buffer)) buffer in
    (write_returned answer.result answer.count, answer.next)
